-- ===== src/Api/Apps.antt =====
-- internal/api/apps.go: the apps of a user, and the switches of their tools.
use gigmcp.Base.{
  Text, List, [], ◌∷◌, ℕ, ℤ, Bool, true, false, not, ◌==◌, comparable_text, any, map, if◌then◌else◌,
  Option, none, some, Result, ok, err, unless_fault, lit,
}
use gigmcp.Store.Types.{
  Db, Server, ManifestRecord, ToolEntry, Credential, Error, User, manifest_not_found,
}
use gigmcp.Store.Installs.{
  install_for_user, uninstall_for_user, is_user_installed, list_user_installs,
  set_user_tool_enabled, list_user_disabled_tools,
}
use gigmcp.Store.Manifests.{get_manifest, get_credential, list_credentials_by_tenant, user_tenant}
use gigmcp.Store.Accounts.{list_servers}
use gigmcp.Gateway.Resolver.{first_injection, vendor_of}
use gigmcp.Auth.Session.{Context}
use gigmcp.Api.Types.{Control, Env, Reply, failed, wrote, effective_user, with_db}
use gigmcp.Api.Names.{is_server_name}

unfoldable pub app_auth_type : ManifestRecord → Text
app_auth_type rec = elim rec.injections [
  | [] ↦ lit "none"
  | inj ∷ more ↦ if inj.type == [] then lit "api_key" else inj.type
]

pub record AppSummary : Type 0 where
  pub name : Text
  pub display_name : Text
  pub category : Text
  pub auth_type : Text
  pub connected : Bool
  pub version : Text
  pub installed_by_me : Bool

pub record AppTool : Type 0 where
  pub name : Text
  pub default : Bool
  pub enabled : Bool

pub record AppDetail : Type 0 where
  pub name : Text
  pub display_name : Text
  pub category : Text
  pub description : Text
  pub auth_type : Text
  pub provider : Text
  pub vendor : Text
  pub scopes : List Text
  pub connected : Bool
  pub version : Text
  pub allowed_hosts : List Text
  pub tools : List AppTool
  pub inject_header : Text
  pub inject_format : Text
  pub placeholder : Text
  pub installed_by_me : Bool

abbrev pub or_slug : Text → Text → Text
or_slug display name = if display == [] then name else display

abbrev pub has : Text → List Text → Bool
has name names = any (λ n. n == name) names

-- One card; an app without a manifest has no branding.
unfoldable pub summary : Db → List Text → List Text → Server → AppSummary
unfolding app_auth_type any
summary db connected installs srv = elim (get_manifest srv.name db) [
  | err e ↦ record {
    name = srv.name;
    display_name = srv.name;
    category = [];
    auth_type = lit "none";
    connected = has srv.name connected;
    version = [];
    installed_by_me = has srv.name installs;
  }
  | ok rec ↦ record {
    name = srv.name;
    display_name = or_slug rec.display_name srv.name;
    category = rec.category;
    auth_type = app_auth_type rec;
    connected = has srv.name connected;
    version = rec.version;
    installed_by_me = has srv.name installs;
  }
]

unfoldable pub app_tools : List Text → List ToolEntry → List AppTool
unfolding any
app_tools disabled tools =
    map
      (λ (t : ToolEntry). record {
        name = t.name;
        default = t.default;
        enabled = not (any (λ d. d == t.name) disabled);
      })
      tools

unfoldable pub detail : ℤ → Text → ManifestRecord → Db → AppDetail
unfolding app_auth_type app_tools
detail user name rec db =
    let inj = first_injection rec.injections in
    record {
      name = name;
      display_name = or_slug rec.display_name name;
      category = rec.category;
      description = rec.description;
      auth_type = app_auth_type rec;
      provider = inj.provider;
      vendor = vendor_of inj;
      scopes = inj.scopes;
      connected = elim (get_credential name (user_tenant user) db) [ ok c ↦ true | err e ↦ false ];
      version = rec.version;
      allowed_hosts = rec.allowed_hosts;
      tools = app_tools (list_user_disabled_tools user name db) rec.tools;
      inject_header = inj.header;
      inject_format = inj.format;
      placeholder = inj.placeholder;
      installed_by_me = is_user_installed user name db;
    }

module _ (env : Env) (ctx : Option Context) where
  -- Behind the user and the name of the app.
  abbrev pub for_app :
      {A : Type 0}
      → (User → Text → Control → Reply A × Control)
      → Text
      → Control
      → Reply A × Control
  for_app handler name s = elim (effective_user ctx) [
    | none ↦ (failed 401, s)
    | some user ↦ if is_server_name name then handler user name s else (failed 400, s)
  ]

  unfoldable pub handle_list_apps : Control → Reply (List AppSummary) × Control
  unfolding summary list_servers
  handle_list_apps s = elim (effective_user ctx) [
    | none ↦ (failed 401, s)
    | some user ↦ elim env.load_fault [
      | some e ↦ (failed 500, s)
      | none ↦
          let connected =
            map (λ (c : Credential). c.server)
              (list_credentials_by_tenant (user_tenant user.id) s.db) in
          -- a failure to read the installs shows none
          let installs : List Text = elim env.read_fault [
            | some e ↦ []
            | none ↦ list_user_installs user.id s.db
          ] in
          (wrote 200 (map (summary s.db connected installs) (list_servers s.db)), s)
    ]
  ]

  abbrev pub manifest_status : Result Error ManifestRecord → Result ℕ ManifestRecord
  manifest_status (ok rec) = ok rec
  manifest_status (err manifest_not_found) = err 404
  manifest_status (err e) = err 500

  unfoldable pub app_got : User → Text → Control → Reply AppDetail × Control
  unfolding detail
  app_got user name s =
      elim (manifest_status (unless_fault env.load_fault (get_manifest name s.db))) [
        | err status ↦ (failed status, s)
        | ok rec ↦ elim env.read_fault [
          | some e ↦ (failed 500, s)
          | none ↦ (wrote 200 (detail user.id name rec s.db), s)
        ]
      ]

  unfoldable pub handle_get_app : Text → Control → Reply AppDetail × Control
  unfolding app_got
  handle_get_app = for_app app_got

  unfoldable pub app_installed : User → Text → Control → Reply (Unit {0}) × Control
  app_installed user name s = elim (unless_fault env.load_fault (get_manifest name s.db)) [
    | err e ↦ (failed 404, s)
    | ok rec ↦ elim env.write_fault [
      | some e ↦ (failed 500, s)
      | none ↦ (wrote 201 tt, with_db (install_for_user user.id name s.db) s)
    ]
  ]

  unfoldable pub handle_install_for_user : Text → Control → Reply (Unit {0}) × Control
  unfolding app_installed
  handle_install_for_user = for_app app_installed

  unfoldable pub app_uninstalled : User → Text → Control → Reply (Unit {0}) × Control
  app_uninstalled user name s =
      let done = uninstall_for_user user.id name env.cut s.db in
      (elim done.0 [ err e ↦ failed 500 | ok u ↦ wrote 204 tt ], with_db done.1 s)

  unfoldable pub handle_uninstall_for_user : Text → Control → Reply (Unit {0}) × Control
  unfolding app_uninstalled
  handle_uninstall_for_user = for_app app_uninstalled

  -- A failure to read the install counts as none.
  abbrev pub installed_or_not : ℤ → Text → Db → Bool
  installed_or_not user name db = elim env.load_fault [
    | some e ↦ false
    | none ↦ is_user_installed user name db
  ]

  unfoldable pub tool_set :
      Text → Result ℕ Bool → User → Text → Control → Reply (Unit {0}) × Control
  unfolding any
  tool_set tool body user name s =
      if installed_or_not user.id name s.db
      then (elim (manifest_status (unless_fault env.read_fault (get_manifest name s.db))) [
        | err status ↦ (failed status, s)
        | ok rec ↦
            if any (λ (t : ToolEntry). t.name == tool) rec.tools
            then (elim body [
              | err status ↦ (failed status, s)
              | ok enabled ↦ elim env.write_fault [
                | some e ↦ (failed 500, s)
                | none ↦
                    (wrote 204 tt, with_db (set_user_tool_enabled user.id name tool enabled s.db) s)
              ]
            ])
            else (failed 400, s)
      ])
      else (failed 404, s)

  unfoldable pub handle_set_app_tool :
      Text → Result ℕ Bool → Text → Control → Reply (Unit {0}) × Control
  unfolding tool_set
  handle_set_app_tool tool body = for_app (tool_set tool body)
