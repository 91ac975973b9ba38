-- ===== src/Registry/Uninstaller.antt =====
-- internal/registry/installer.go: Uninstall. The removal of the bundle directories is a parameter.
use gigmcp.Base.{
  Text, [], ◌∷◌, ℕ, Bool, true, false, ◌&&◌, ◌||◌, nat_beq, leb, if◌then◌else◌, Option, none, some,
  Result, err, lit,
}
use gigmcp.Store.Types.{Db, Error, failure}
use gigmcp.Store.Manifests.{delete_manifest, delete_server}
use gigmcp.Store.AppTools.{delete_disabled_tools_for_server}

-- The failures of the store's three calls, and what the file system answers.
pub record Disk : Type 0 where
  pub server_fault : Option Error
  pub manifest_fault : Option Error
  pub tools_fault : Option Error
  pub removed : Result Error (Unit {0})

abbrev pub is_alnum : ℕ → Bool
is_alnum c = (leb b'a' c && leb c b'z') || (leb b'0' c && leb c b'9')

-- ^[a-z0-9]([a-z0-9-]*[a-z0-9])?$, by whether the last character was a letter or a digit
unfoldable pub name_from : Bool → Text → Bool
name_from last [] = last
name_from last (c ∷ s) = (is_alnum c || nat_beq c b'-') && name_from (is_alnum c) s

unfoldable pub is_uninstall_name : Text → Bool
unfolding name_from
is_uninstall_name [] = false
is_uninstall_name (c ∷ s) = is_alnum c && name_from true s

-- The server row goes first; each failure ends the call and keeps what was done before.
unfoldable pub uninstall : Disk → Text → Db → Result Error (Unit {0}) × Db
unfolding is_uninstall_name
uninstall d name db =
    if is_uninstall_name name
    then (elim d.server_fault [
      | some e ↦ (err e, db)
      | none ↦ elim d.manifest_fault [
        | some e ↦ (err e, delete_server name db)
        | none ↦ elim d.tools_fault [
          | some e ↦ (err e, delete_manifest name (delete_server name db))
          | none ↦ (
            d.removed,
            delete_disabled_tools_for_server name (delete_manifest name (delete_server name db)),
          )
        ]
      ]
    ])
    else (err (failure (lit "registry: invalid server name")), db)
