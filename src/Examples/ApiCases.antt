-- ===== src/Examples/ApiCases.antt =====
-- Runs of the handlers of profiles, credentials and the catalog, and of a history of credentials.
use gigmcp.Base.{
  err, inl, ◌*◌, Text, List, [], ◌∷◌, pos, comparable_text, comparable_int, AllLines, Option, none,
  some, Result, ok, lit, ◌≡◌, ◌≢◌, ◌⊎◌, refl, sym, ◌∙◌, subst, arith, any, first_where, text_beq,
  contains, int_beq, parse_int, parse_unsigned, parse_digits, signed,
}
use gigmcp.Store.Types.{Profile, Credential, Error, failure, second}
use gigmcp.Store.Profiles.{get_profile_by_id}
use gigmcp.Store.Manifests.{get_credential}
use gigmcp.Store.Manifests.Refinement.{Change, put, delete, history, replay, Shows, history-Shows}
use gigmcp.Auth.Session.{Context}
use gigmcp.Api.Types.{Env, Control, failed, wrote}
use gigmcp.Api.Names.{is_server_name, is_header_name, all_of, is_host_entry}
use gigmcp.Api.Catalog.{Index, cached_index}
use gigmcp.Api.Catalog.Current.{Visit, visited, Served, cached_index-Served}
use gigmcp.Api.Credentials.{
  CredentialBody, credential_of, validate_credential_body, all_hosts, handle_put_credential,
}
use gigmcp.Api.Credentials.Stored.{IsAccepted, handle_put_credential-get}
use gigmcp.Api.Profiles.Ownership.{
  rotate, put_servers, handle, IsHidden, hidden_answer, handle-hidden,
}
use gigmcp.Api.Requests.{IsSound}
use gigmcp.Api.Requests.Run.{
  Request, of_profile, create, remove, uninstall_own, Arrival, run, run-IsSound,
}
use gigmcp.Examples.StoreCases.{db, work, db-IsKeyed}
use gigmcp.Examples.LoginCases.{env, as_boss, as_clerk, office}

one_is_one : parse_int (lit "1") ≡ some (pos 1)
unfolding parse_int parse_unsigned parse_digits signed
one_is_one = refl

work_found : get_profile_by_id (pos 1) office.db ≡ ok work
unfolding get_profile_by_id first_where int_beq
work_found = refl

ok_injective : (p q : Profile) → ◌≡◌ {A = Result Error Profile} (ok p) (ok q) → p ≡ q
ok_injective p q e = cc

work-IsHidden : IsHidden as_clerk (pos 1) office.db
work-IsHidden p e = (
  subst (λ (q : Profile). q.user_id ≢ pos 8) (ok_injective work p (sym work_found ∙ e))
      (λ same. ground arith),
  λ same. ground arith,
)

handle-hidden_example :
    handle env (some as_clerk) rotate (lit "1") office ≡ (failed (hidden_answer none), office)
handle-hidden_example =
    handle-hidden env as_clerk (lit "1") (pos 1) office one_is_one work-IsHidden rotate

-- No bundle holds a server yet.
abbrev vacant : Control
vacant = record office { db = record office.db { profile_servers = [] } }

vacant-IsSound : IsSound vacant.db
unfolding any
vacant-IsSound = record {
  keyed = record { ids = db-IsKeyed.ids; slugs = db-IsKeyed.slugs; below = db-IsKeyed.below };
  stocked = record {
    known = λ id name h. ground (arith, h);
    installed = λ id name p h at. ground (arith, h);
  };
}

-- The second statement of whatever runs without a transaction fails.
abbrev broken : Env
broken = record env { cut = some (1, failure (lit "disk")) }

abbrev arrival : Context → Request → Arrival
arrival ctx r = record { env = env; installer = none; ctx = some ctx; request = r }

abbrev arrivals : List Arrival
arrivals =
    arrival as_boss (of_profile (put_servers (ok (lit "echo" ∷ []))) (lit "1"))
    ∷ arrival as_clerk (of_profile rotate (lit "1"))
    ∷ arrival as_clerk (create (ok (lit "spare", lit "Spare")))
    ∷ arrival as_boss (uninstall_own (lit "echo"))
    ∷ record (arrival as_boss (remove (lit "echo"))) { env = broken }
    ∷ []

run-IsSound_example : IsSound (run arrivals vacant).db
run-IsSound_example =
    run-IsSound arrivals vacant (tt, (tt, (tt, (tt, (inl refl, tt))))) vacant-IsSound

abbrev sent : CredentialBody
sent = record {
  secret = lit "s3";
  inject_header = [];
  inject_format = [];
  placeholder = [];
  allowed_hosts = lit "api.host" ∷ [];
}

abbrev kept : Credential
kept = record {
  server = lit "echo";
  tenant = lit "user:8";
  encrypted_key = lit "s3";
  inject_header = [];
  inject_format = [];
  placeholder = [];
  allowed_hosts = lit "api.host" ∷ [];
}

abbrev blank : Text → Text → Option Credential
blank server tenant = none

blank-Shows : Shows db blank
unfolding get_credential first_where
blank-Shows server tenant = refl

abbrev changes : List Change
changes =
    put kept ∷ put (record kept { tenant = lit "t" }) ∷ delete (lit "echo") (lit "user:8") ∷ []

kept_line : AllLines kept.allowed_hosts
kept_line = ground arith

kept_several : kept.allowed_hosts ≢ ([] ∷ [])
kept_several e = ground arith

history-Shows_example : Shows (history changes db) (replay changes blank)
history-Shows_example =
    history-Shows changes db blank
      ((kept_line, kept_several), ((kept_line, kept_several), (tt, tt))) blank-Shows

abbrev after_put : Control
after_put = (handle_put_credential env (some as_clerk) (lit "echo") (ok sent) office).1

puts :
    handle_put_credential env (some as_clerk) (lit "echo") (ok sent) office
    ≡ (wrote 204 tt, after_put)
unfolding handle_put_credential credential_of validate_credential_body is_server_name is_header_name
    all_of all_hosts is_host_entry text_beq contains
puts = refl

handle_put_credential-get_example :
    (c : Credential) × IsAccepted env (some as_clerk) (lit "echo") (ok sent) office c
    × (get_credential c.server c.tenant after_put.db ≡ ok c)
    × ((t tenant : Text)
        → (t ≢ c.server) ⊎ (tenant ≢ c.tenant)
        → get_credential t tenant after_put.db ≡ get_credential t tenant office.db)
handle_put_credential-get_example =
    handle_put_credential-get env (some as_clerk) (lit "echo") (ok sent) office 204 tt after_put
      puts

abbrev catalog : Index
catalog = (lit "echo", record { latest = lit "2"; versions = λ v. none }) ∷ []

abbrev visits : List Visit
visits = record { now = 0; done = second; fetch = ok catalog } ∷ []

cached_index-Served_example :
    Served visits
      (2 * second)
      (err (failure (lit "down")))
      (cached_index (2 * second) (3 * second) (err (failure (lit "down"))) (visited visits))
cached_index-Served_example =
    cached_index-Served visits (2 * second) (3 * second) (err (failure (lit "down")))
