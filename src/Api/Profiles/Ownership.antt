-- ===== src/Api/Profiles/Ownership.antt =====
-- A profile of another user reads as one that does not exist.
use gigmcp.Base.{
  Text, List, [], ℤ, ◌==◌, comparable_text, comparable_int, first_where, Option, none, some, Result,
  ok, err, parse_int, lit, ◌≡◌, ◌≢◌, ◌⊎◌, inl, inr, refl, arith, text_beq_iff, int_beq_iff,
  Option-cases,
}
use gigmcp.Store.Types.{Db, Profile, Error, profile_not_found}
use gigmcp.Store.Profiles.{get_profile_by_id}
use gigmcp.Auth.Session.{Context}
use gigmcp.Api.Types.{Control, Env, Failure, failed}
use gigmcp.Api.Profiles.{
  ProfileReply, load_status, may_load, load_owned_profile, on_loaded, write_profile, deleted,
  token_rotated, patched, bundle_put, handle_get_profile, handle_patch_profile,
  handle_delete_profile, handle_put_profile_servers, handle_rotate_profile_token,
}

-- The requests that name a profile, with what the decoder made of their bodies.
pub data ProfileRequest : Type 0 where
  get delete rotate : ProfileRequest
  patch : Result Failure Text → ProfileRequest
  put_servers : Result Failure (List Text) → ProfileRequest

unfoldable pub handle : Env → Option Context → ProfileRequest → Text → Control → ProfileReply
handle env ctx get = handle_get_profile env ctx
handle env ctx delete = handle_delete_profile env ctx
handle env ctx rotate = handle_rotate_profile_token env ctx
handle env ctx (patch body) = handle_patch_profile env ctx body
handle env ctx (put_servers body) = handle_put_profile_servers env ctx body

-- There is no profile of the id that the caller owns, or may load as an administrator.
abbrev pub IsHidden : Context → ℤ → Db → Type 0
IsHidden c id db =
    (p : Profile)
    → get_profile_by_id id db ≡ ok p
    → (p.user_id ≢ c.effective_user.id) × (c.real_user.role ≢ lit "admin")

missing_or_found :
    (id : ℤ) (db : Db)
    → (get_profile_by_id id db ≡ err profile_not_found)
      ⊎ ((p : Profile) × (get_profile_by_id id db ≡ ok p))
unfolding get_profile_by_id
missing_or_found id db = elim (Option-cases (first_where (λ p. p.id == id) db.profiles)) [
  | inl e ↦ inl (rw e refl)
  | inr (p, e) ↦ inr (p, rw e refl)
]

abbrev pub absent : Failure
absent = record { status = 404; code = lit "not_found"; message = lit "profile not found" }

-- What the caller is told: that there is no such profile, or that it could not be read.
abbrev pub hidden_answer : Option Error → Failure
hidden_answer none = absent
hidden_answer (some profile_not_found) = absent
hidden_answer (some e) = record {
  status = 500;
  code = lit "internal";
  message = lit "load profile";
}

module _ (env : Env) (c : Context) (text : Text) (id : ℤ) (s : Control)
    (number : parse_int text ≡ some id) (hidden : IsHidden c id s.db) where
  unread :
      (e : Error)
      → ◌≡◌ {A = Result Failure Profile} (load_status (err e)) (err (hidden_answer (some e)))
  unread profile_not_found = refl
  unread e = refl

  load_refuses : load_owned_profile env (some c) text s.db ≡ err (hidden_answer env.load_fault)
  unfolding load_owned_profile may_load
  load_refuses = elim (Option-cases env.load_fault) [
    | inr (e, bad) ↦ ground (arith, bad, number, unread e)
    | inl fine ↦ elim (missing_or_found id s.db) [
      | inl gone ↦ ground (arith, fine, number, gone)
      | inr (p, there_) ↦ ground (
        arith,
        fine,
        number,
        there_,
        (hidden p there_).0,
        (hidden p there_).1,
        int_beq_iff p.user_id c.effective_user.id,
        text_beq_iff c.real_user.role (lit "admin"),
      )
    ]
  ]

  refused :
      (handler : Profile → Control → ProfileReply)
      → on_loaded env (some c) handler text s ≡ (failed (hidden_answer env.load_fault), s)
  unfolding on_loaded
  refused handler = rw (load_refuses, on_loaded) refl

  -- A request that names a profile which the caller neither owns nor may load as a real
  -- administrator, or which does not exist, changes nothing and is answered by the same status, code
  -- and message in all these cases: 404, or 500 when the row could not be read.
  pub handle-hidden :
      (r : ProfileRequest)
      → handle env (some c) r text s ≡ (failed (hidden_answer env.load_fault), s)
  unfolding handle handle_get_profile handle_delete_profile handle_rotate_profile_token
      handle_patch_profile handle_put_profile_servers
  handle-hidden get = refused (λ p t. write_profile env (some c) 200 p [] t)
  handle-hidden delete = refused (deleted env (some c))
  handle-hidden rotate = refused (token_rotated env (some c) env.entropy)
  handle-hidden (patch body) = refused (patched env (some c) body)
  handle-hidden (put_servers body) = refused (bundle_put env (some c) body)
