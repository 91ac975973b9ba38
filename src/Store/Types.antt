-- ===== src/Store/Types.antt =====
-- internal/store: the rows of the tables and the errors of the Store interface. A time is a
-- number of nanoseconds since the epoch; columns keep whole seconds.
use gigmcp.Base.{Text, List, ℕ, ◌/◌, ◌*◌, ℤ, Bool, Option}

pub data Error : Type 0 where
  manifest_not_found credential_not_found connected_account_not_found auth_config_not_found : Error
  profile_not_found slug_taken user_not_found session_not_found : Error
  -- any other failure of the database
  failure : Text → Error

abbrev pub second : ℕ
second = 1_000_000_000

-- t.Unix() of a time, and time.Unix(s, 0)
abbrev pub unix : ℕ → ℕ
unix t = t / second

abbrev pub from_unix : ℕ → ℕ
from_unix s = s * second

pub record Server : Type 0 where
  pub id : ℤ
  pub name : Text
  pub binary : Text
  pub bundle_dir : Text

pub record Profile : Type 0 where
  pub id : ℤ
  pub slug : Text
  pub name : Text
  pub user_id : ℤ
  pub token_hash : Text
  pub meta_tools : Bool
  pub created_at : ℕ

pub record User : Type 0 where
  pub id : ℤ
  pub issuer : Text
  pub subject : Text
  pub email : Text
  pub display_name : Text
  pub role : Text
  pub created_at : ℕ
  pub last_login_at : ℕ

pub record Session : Type 0 where
  pub token_hash : Text
  pub user_id : ℤ
  pub created_at : ℕ
  pub expires_at : ℕ
  pub impersonating_user_id : Option ℤ
  pub impersonation_expires_at : Option ℕ

pub record Credential : Type 0 where
  pub server : Text
  pub tenant : Text
  pub encrypted_key : Text
  pub inject_header : Text
  pub inject_format : Text
  pub placeholder : Text
  pub allowed_hosts : List Text

pub record Injection : Type 0 where
  pub id : Text
  pub type : Text
  pub provider : Text
  pub vendor : Text
  pub scopes : List Text
  pub header : Text
  pub format : Text
  pub env : Text
  pub placeholder : Text

pub record ToolEntry : Type 0 where
  pub name : Text
  pub default : Bool

pub record ManifestRecord : Type 0 where
  pub server : Text
  pub version : Text
  pub digest : Text
  pub tier : Text
  pub entrypoint : Text
  pub display_name : Text
  pub category : Text
  pub description : Text
  pub allowed_hosts : List Text
  pub injections : List Injection
  pub tools : List ToolEntry
  pub manifest_hash : Text
  pub consented_hash : Text

pub record ConnectedAccount : Type 0 where
  pub user_id : ℤ
  pub vendor : Text
  pub encrypted_refresh_token : Text
  pub encrypted_access_token : Text
  pub expires_at : ℕ
  pub granted_scopes : List Text

pub record AuthConfig : Type 0 where
  pub vendor : Text
  pub authorize_url : Text
  pub token_url : Text
  pub client_id : Text
  pub encrypted_client_secret : Text
  pub default_scopes : List Text
  pub pkce : Bool
  pub mode : Text

pub data AuditKind : Type 0 where
  egress auth admin : AuditKind

pub record AuditEvent : Type 0 where
  pub id : ℕ
  -- `none` is the zero time
  pub ts : Option ℕ
  pub kind : AuditKind
  pub user_id : Option ℤ
  pub profile_id : Option ℤ
  pub server : Text
  pub host : Text
  pub decision : Text
  pub detail : Text

-- A row of profile_servers, and one of user_disabled_tools. The sequences are SQLite's for the
-- AUTOINCREMENT keys: the greatest number given out.
pub record Membership : Type 0 where
  pub profile_id : ℤ
  pub server_name : Text

pub record Install : Type 0 where
  pub user_id : ℤ
  pub server : Text

pub record DisabledTool : Type 0 where
  pub user_id : ℤ
  pub server : Text
  pub tool : Text

pub record Db : Type 0 where
  pub servers : List Server
  pub server_seq : ℕ
  pub credentials : List Credential
  pub manifests : List ManifestRecord
  pub users : List User
  pub user_seq : ℕ
  pub sessions : List Session
  pub profiles : List Profile
  pub profile_seq : ℕ
  pub profile_servers : List Membership
  pub user_installs : List Install
  pub user_disabled_tools : List DisabledTool
  -- server and tool
  pub app_disabled_tools : List (Text × Text)
  pub auth_configs : List AuthConfig
  -- newest first
  pub audit : List AuditEvent
  pub audit_seq : ℕ
  pub connected_accounts : List ConnectedAccount
