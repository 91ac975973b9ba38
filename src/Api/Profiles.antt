-- ===== src/Api/Profiles.antt =====
-- internal/api/profiles.go: the handlers of a profile.
pub mod Ownership
pub mod Stocked
pub mod Shelved
pub mod Cut
use gigmcp.Base.{
  Text, List, [], ◌∷◌, ℕ, ℤ, pos, Bool, true, false, not, ◌&&◌, ◌||◌, ◌==◌, comparable_text,
  comparable_int, any, if◌then◌else◌, Option, none, some, Result, ok, err, ◌>>=◌, ◌>>◌, require,
  or_else, attempt, unless_fault, parse_int, lit, ◌++◌, map,
}
use gigmcp.Store.Types.{Db, Profile, User, Error, profile_not_found, slug_taken}
use gigmcp.Store.Installs.{list_user_installs, get_profile_servers}
use gigmcp.Store.Profiles.{
  create_profile, get_profile_by_id, list_profiles, update_profile_name, set_profile_token,
  delete_profile, set_profile_servers,
}
use gigmcp.Auth.Session.{Context}
use gigmcp.Api.Types.{
  Control, Env, ReplyOf, Failure, failed, wrote, effective_user, audit, invalidate, with_db,
}
use gigmcp.Api.Names.{is_slug, trim_space, is_display_name}

pub record ProfileJson : Type 0 where
  pub id : ℤ
  pub slug : Text
  pub name : Text
  pub user_id : ℤ
  pub endpoint : Text
  pub servers : List Text
  -- empty except on create and rotate
  pub token : Text

abbrev pub ProfileReply : Type 0
ProfileReply = ReplyOf Failure (List ProfileJson) × Control

unfoldable pub profile_json : Db → Profile → Text → ProfileJson
profile_json db p token = record {
  id = p.id;
  slug = p.slug;
  name = p.name;
  user_id = p.user_id;
  endpoint = lit "/mcp/p/" ++ p.slug;
  servers = get_profile_servers p.id db;
  token = token;
}

abbrev pub refusal : ℕ → Text → Text → Failure
refusal status code message = record { status = status; code = code; message = message }

abbrev pub invalid : Text → Failure
invalid = refusal 400 (lit "invalid")

abbrev pub internal : Text → Failure
internal = refusal 500 (lit "internal")

abbrev pub unauthenticated : Failure
unauthenticated = refusal 401 (lit "unauthenticated") (lit "authentication required")

abbrev pub no_profile : Failure
no_profile = refusal 404 (lit "not_found") (lit "profile not found")

-- The dash is an en dash.
abbrev pub name_length : Failure
name_length = invalid (lit "name must be 1" ++ 8211 ∷ lit "128 characters")

abbrev pub no_entropy : Failure
no_entropy = internal (lit "entropy unavailable")

abbrev pub load_status {ℓ} : {A : Type ℓ} → Result Error A → Result Failure A
load_status (ok a) = ok a
load_status (err profile_not_found) = err no_profile
load_status (err e) = err (internal (lit "load profile"))

-- strings.Join(names, ",")
unfoldable pub join_commas : List Text → Text
join_commas [] = []
join_commas (s ∷ []) = s
join_commas (s ∷ more) = s ++ b',' ∷ join_commas more

abbrev pub effective_of : Option Context → Result Failure Context
effective_of none = err unauthenticated
effective_of (some ctx) = ok ctx

abbrev pub number_of : Option ℤ → Result Failure ℤ
number_of none = err (invalid (lit "invalid profile id"))
number_of (some id) = ok id

-- The owner, or a real administrator.
unfoldable pub may_load : Context → Profile → Bool
may_load ctx p = p.user_id == ctx.effective_user.id || ctx.real_user.role == lit "admin"

-- Every name is among the owner's installs.
unfoldable pub all_installed : List Text → List Text → Bool
unfolding any
all_installed installs [] = true
all_installed installs (n ∷ names) = any (λ i. i == n) installs && all_installed installs names

module _ (env : Env) (ctx : Option Context) where
  unfoldable pub load_owned_profile : Text → Db → Result Failure Profile
  unfolding may_load
  load_owned_profile id db = do
    id ← number_of (parse_int id)
    p ← load_status (unless_fault env.load_fault (get_profile_by_id id db))
    c ← effective_of ctx
    require (may_load c p) no_profile
    ok p

  -- The tail of a handler; the servers are read once more.
  unfoldable pub write_profile : ℕ → Profile → Text → Control → ProfileReply
  unfolding profile_json
  write_profile status p token s = elim env.read_fault [
    | some e ↦ (failed (internal (lit "load profile servers")), s)
    | none ↦ (wrote status (profile_json s.db p token ∷ []), s)
  ]

  -- The servers of each profile are a read of their own.
  unfoldable pub profiles_listed : List Profile → Control → ProfileReply
  unfolding profile_json
  profiles_listed [] s = (wrote 200 [], s)
  profiles_listed (p ∷ profiles) s = elim env.read_fault [
    | some e ↦ (failed (internal (lit "load profile servers")), s)
    | none ↦ (wrote 200 (map (λ q. profile_json s.db q []) (p ∷ profiles)), s)
  ]

  unfoldable pub handle_list_profiles : Control → ProfileReply
  unfolding profiles_listed
  handle_list_profiles s = elim ctx [
    | none ↦ (failed unauthenticated, s)
    | some c ↦
        let filter : ℤ =
          if c.effective_user.role == lit "admin" then pos 0 else c.effective_user.id in
        elim env.load_fault [
          | some e ↦ (failed (internal (lit "list profiles")), s)
          | none ↦ profiles_listed (list_profiles filter s.db) s
        ]
  ]

  -- Without a user in the context the owner is the zero User, of id 0.
  abbrev pub owner_id : ℤ
  owner_id = elim (effective_user ctx) [ none ↦ pos 0 | some u ↦ u.id ]

  abbrev pub created_reply : Text → Result Error Profile → Db → Control → ProfileReply
  created_reply token (ok p) db s =
      write_profile 201 p token
        (with_db (audit env ctx (lit "profile_create") (lit "slug=" ++ p.slug) (some p.id) db) s)
  created_reply token (err slug_taken) db s =
      (failed (refusal 409 (lit "conflict") (lit "slug already in use")), s)
  created_reply token (err e) db s = (failed (internal (lit "create profile")), s)

  -- `body` is the decoded name and slug, or the decoder's refusal.
  unfoldable pub new_profile_of : Result Failure (Text × Text) → Result Failure (Text × Text × Text)
  new_profile_of body = do
    (name, slug) ← body
    require (is_display_name (trim_space name)) name_length
    require (is_slug slug) (invalid (lit "slug must match ^[a-z0-9][a-z0-9-]{1,62}$"))
    token ← or_else no_entropy env.entropy
    ok (trim_space name, slug, token)

  unfoldable pub handle_create_profile : Result Failure (Text × Text) → Control → ProfileReply
  unfolding new_profile_of write_profile audit
  handle_create_profile body s = elim (new_profile_of body) [
    | err refused ↦ (failed refused, s)
    | ok (name, slug, token) ↦
        let made =
          attempt env.write_fault (create_profile env.now slug name owner_id (env.hash_token token))
            s.db in
        created_reply token made.0 made.1 (with_db made.1 s)
  ]

  -- A handler behind loadOwnedProfile.
  unfoldable pub on_loaded : (Profile → Control → ProfileReply) → Text → Control → ProfileReply
  unfolding load_owned_profile
  on_loaded handler id s = elim (load_owned_profile id s.db) [
    | err refused ↦ (failed refused, s)
    | ok p ↦ handler p s
  ]

  unfoldable pub handle_get_profile : Text → Control → ProfileReply
  unfolding on_loaded write_profile
  handle_get_profile = on_loaded (λ p s. write_profile 200 p [] s)

  unfoldable pub patched : Result Failure Text → Profile → Control → ProfileReply
  unfolding write_profile audit
  patched (err refused) p s = (failed refused, s)
  patched (ok given) p s =
      let name = trim_space given in
      if is_display_name name
      then (elim env.write_fault [
        | some e ↦ (failed (internal (lit "rename profile")), s)
        | none ↦
            write_profile 200 (record p { name = name }) []
              (with_db
                (audit env ctx (lit "profile_rename") name (some p.id)
                  (update_profile_name p.id name s.db))
                s)
      ])
      else (failed name_length, s)

  unfoldable pub handle_patch_profile : Result Failure Text → Text → Control → ProfileReply
  unfolding on_loaded patched
  handle_patch_profile body = on_loaded (patched body)

  unfoldable pub deleted : Profile → Control → ProfileReply
  unfolding audit
  deleted p s = elim env.write_fault [
    | some e ↦ (failed (internal (lit "delete profile")), s)
    | none ↦ (
      wrote 204 [],
      with_db
          (audit env ctx (lit "profile_delete") (lit "slug=" ++ p.slug) (some p.id)
            (delete_profile p.id s.db))
          (invalidate p.id s),
    )
  ]

  unfoldable pub handle_delete_profile : Text → Control → ProfileReply
  unfolding on_loaded deleted
  handle_delete_profile = on_loaded deleted

  abbrev pub bundle_stored :
      List Text → Profile → Result Error (Unit {0}) → Db → Control → ProfileReply
  bundle_stored names p (err e) db s = (failed (internal (lit "set profile servers")), s)
  bundle_stored names p (ok done) db s = write_profile 200 p [] (
      with_db (audit env ctx (lit "profile_servers") (join_commas names) (some p.id) db)
        (invalidate p.id s))

  unfoldable pub bundle_put : Result Failure (List Text) → Profile → Control → ProfileReply
  unfolding all_installed write_profile audit
  bundle_put (err refused) p s = (failed refused, s)
  bundle_put (ok names) p s = elim env.read_fault [
    | some e ↦ (failed (internal (lit "list installs")), s)
    | none ↦
        if all_installed (list_user_installs p.user_id s.db) names
        then (let done = attempt env.write_fault (set_profile_servers p.id names) s.db in
            bundle_stored names p done.0 done.1 s)
        else (failed (invalid (lit "install the app before adding it to a profile")), s)
  ]

  unfoldable pub handle_put_profile_servers :
      Result Failure (List Text) → Text → Control → ProfileReply
  unfolding on_loaded bundle_put
  handle_put_profile_servers body = on_loaded (bundle_put body)

  unfoldable pub token_rotated : Result Error Text → Profile → Control → ProfileReply
  unfolding write_profile audit
  token_rotated (err e) p s = (failed no_entropy, s)
  token_rotated (ok token) p s = elim env.write_fault [
    | some e ↦ (failed (internal (lit "rotate token")), s)
    | none ↦ write_profile 200 p token (
        with_db
          (audit env ctx (lit "profile_token_rotate") [] (some p.id)
            (set_profile_token p.id (env.hash_token token) s.db))
          s)
  ]

  unfoldable pub handle_rotate_profile_token : Text → Control → ProfileReply
  unfolding on_loaded token_rotated
  handle_rotate_profile_token = on_loaded (token_rotated env.entropy)
