-- ===== src/Examples/TableCases.antt =====
-- Runs of the audit table, the connections, and the start of a bundle.
use gigmcp.Base.{
  [], ◌∷◌, ◌++◌, ℕ, pos, true, ◌≡◌, refl, lit, comparable_text, none, some, ok, arith, text_beq,
  int_beq, where_, any, first_where,
}
use gigmcp.Store.Types.{Db, AuditEvent, egress, ConnectedAccount, Server}
use gigmcp.Store.Audit.{matching, IsLog}
use gigmcp.Store.Accounts.{get_connected_account}
use gigmcp.Gateway.Bundle.{Sources, expose_for, spawn_bundle, spawn_profile}
use gigmcp.Gateway.Bundle.Exposure.{IsTidy, spawn_profile-IsTidy}
use gigmcp.Examples.StoreCases.{db, work}
use gigmcp.Examples.GatewayCases.{manifest_one}

abbrev event : ℕ → AuditEvent
event id = record {
  id = id;
  ts = some 0;
  kind = egress;
  user_id = some (pos 7);
  profile_id = none;
  server = [];
  host = [];
  decision = [];
  detail = [];
}

abbrev account : ConnectedAccount
account = record {
  user_id = pos 7;
  vendor = lit "google";
  encrypted_refresh_token = lit "r";
  encrypted_access_token = lit "a";
  expires_at = 0;
  granted_scopes = [];
}

abbrev busy : Db
busy = record db {
  audit = event 3 ∷ event 2 ∷ event 1 ∷ [];
  audit_seq = 3;
  connected_accounts = account ∷ [];
}

busy-IsLog : IsLog busy
busy-IsLog = record {
  falling = ((omega arith, (omega arith, tt)), ((omega arith, tt), (tt, tt)));
  positive =
      ((omega arith, omega arith), ((omega arith, omega arith), ((omega arith, omega arith), tt)));
}

all_seen : matching (pos 0) (pos 7) busy.audit ≡ (event 3 ∷ []) ++ event 2 ∷ event 1 ∷ []
unfolding matching where_ int_beq
all_seen = refl

connected : get_connected_account (pos 7) (lit "google") busy ≡ ok account
unfolding get_connected_account first_where int_beq text_beq
connected = refl

abbrev echo : Server
echo = record { id = pos 1; name = lit "echo"; binary = lit "/echo"; bundle_dir = [] }

-- The server "gone" is in the bundle but not listed any more, and the owner turned "ping" off.
abbrev sources : Sources
sources = record {
  get_profile_servers = λ id. ok (lit "echo" ∷ lit "gone" ∷ []);
  list_servers = ok (echo ∷ []);
  is_user_installed = λ user server. ok true;
  get_manifest = λ server. ok (record manifest_one {
    tools =
        record { name = lit "ping"; default = true }
        ∷ record { name = lit "say"; default = true }
        ∷ [];
  });
  list_user_disabled_tools = λ user server. ok (lit "ping" ∷ []);
  spawn = λ srv tenant. ok 10;
  refuses = λ backends. none;
}

started :
    (spawn_profile sources work).result
    ≡ ok (record { name = lit "echo"; sandbox = 10; expose = some (lit "say" ∷ []) } ∷ [])
unfolding spawn_profile spawn_bundle expose_for first_where where_ any text_beq
started = refl

spawn_profile-IsTidy_example : IsTidy sources work (spawn_profile sources work)
spawn_profile-IsTidy_example = spawn_profile-IsTidy sources work
