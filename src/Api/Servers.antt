-- ===== src/Api/Servers.antt =====
-- internal/api/servers.go: the servers of the deployment. The installer's Install is a parameter.
use gigmcp.Base.{
  Text, List, [], ◌∷◌, ◌++◌, ℕ, ℤ, ◌==◌, comparable_text, map, if◌then◌else◌, Option, none, some,
  Result, ok, err, lit,
}
use gigmcp.Store.Types.{Db, Server, Error}
use gigmcp.Store.Accounts.{list_servers}
use gigmcp.Store.Installs.{cascade_remove_server}
use gigmcp.Store.Profiles.{remove_server_from_profiles}
use gigmcp.Registry.Uninstaller.{Disk, uninstall}
use gigmcp.Auth.Session.{Context}
use gigmcp.Api.Types.{Control, Env, Reply, failed, wrote, audit, invalidate, with_db}

pub record ServerJson : Type 0 where
  pub id : ℤ
  pub name : Text

abbrev pub to_server_json : List Server → List ServerJson
to_server_json servers = map (λ (srv : Server). record { id = srv.id; name = srv.name }) servers

-- The installer of the deployment, if it has one: Install, and the parts of Uninstall that may fail.
pub record Installer : Type 0 where
  pub install : Text → Db → Result Error Server × Db
  pub disk : Disk

unfoldable pub invalidate_all : List ℤ → Control → Control
invalidate_all [] s = s
invalidate_all (id ∷ ids) s = invalidate_all ids (invalidate id s)

module _ (env : Env) (installer : Option Installer) (ctx : Option Context) where
  -- Installer.List is Store.ListServers.
  unfoldable pub handle_list_servers : Control → Reply (List ServerJson) × Control
  unfolding list_servers
  handle_list_servers s = elim env.load_fault [
    | some e ↦ (failed 500, s)
    | none ↦ (wrote 200 (to_server_json (list_servers s.db)), s)
  ]

  abbrev pub install_reply :
      Text → Result Error Server → Db → Control → Reply (List ServerJson) × Control
  install_reply ref (err e) db s = (failed 502, with_db db s)
  install_reply ref (ok srv) db s = (
    wrote 201 (to_server_json (srv ∷ [])),
    with_db (audit env ctx (lit "server_install") (lit "ref=" ++ ref) none db) s,
  )

  unfoldable pub handle_install_server : Result ℕ Text → Control → Reply (List ServerJson) × Control
  unfolding audit
  handle_install_server body s = elim installer [
    | none ↦ (failed 501, s)
    | some i ↦ elim body [
      | err status ↦ (failed status, s)
      | ok ref ↦
          if ref == []
          then (failed 400, s)
          else (let made = i.install ref s.db in install_reply ref made.0 made.1 s)
    ]
  ]

  -- What follows the installer's success. Failures of the two sweeps are logged only: `read_fault` is
  -- that of the first, `write_fault` that of the second.
  unfoldable pub swept : Text → Control → Control
  unfolding invalidate_all audit
  swept name s =
      let removed : Control = elim env.read_fault [
        | some e ↦ s
        | none ↦
            let gone = remove_server_from_profiles name s.db in
            invalidate_all gone.0 (with_db gone.1 s)
      ] in
      let cascaded : Control = with_db (cascade_remove_server name env.cut removed.db).1 removed in
      with_db (audit env ctx (lit "server_uninstall") (lit "name=" ++ name) none cascaded.db)
        cascaded

  abbrev pub uninstall_reply :
      Text → Result Error (Unit {0}) → Control → Reply (List ServerJson) × Control
  uninstall_reply name (err e) s = (failed 502, s)
  uninstall_reply name (ok done) s = (wrote 204 [], swept name s)

  unfoldable pub handle_uninstall_server : Text → Control → Reply (List ServerJson) × Control
  unfolding swept
  handle_uninstall_server name s = elim installer [
    | none ↦ (failed 501, s)
    | some i ↦
        let done = uninstall i.disk name s.db in uninstall_reply name done.0 (with_db done.1 s)
  ]
