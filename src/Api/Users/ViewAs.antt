-- ===== src/Api/Users/ViewAs.antt =====
-- View-as lasts an hour at most, and the session middleware ends it by itself.
use gigmcp.Base.{
  Text, List, ℕ, ◌+◌, ◌*◌, ◌≤◌, ◌<◌, ℤ, pos, negsuc, not, ◌==◌, comparable_int, comparable_text,
  ltb, if◌then◌else◌, Option, none, some, Result, Result-cases, ok, unless_fault, >>=-eq-ok,
  require-eq-ok, or_else->>=, lit, any, first_where, ◌≡◌, ◌≢◌, inl, inr, refl, ap, ◌∙◌, sym, subst,
  arith, int_beq_iff, text_beq_iff, Bool-cases, Option-cases, first_where-updated,
  first_where_holds, first_where-update_where,
}
use gigmcp.Store.Types.{Db, User, Session, Error, unix, from_unix}
use gigmcp.Store.Sessions.{get_user, scanned, set_impersonation}
use gigmcp.Store.Audit.{append_audit}
use gigmcp.Auth.Session.{Context, viewed}
use gigmcp.Api.Types.{Control, Env, wrote, with_db}
use gigmcp.Api.Users.{
  minute, duration_bits, impersonation_ttl, target_of, impersonation_event, impersonation_noted,
  handle_start_impersonation,
}

-- Whatever was asked for, view-as gets more than nothing and at most an hour; from one to sixty
-- minutes it gets what was asked for.
impersonation_ttl_bounds :
    (minutes : ℤ)
    → (0 < impersonation_ttl minutes)
      × (impersonation_ttl minutes ≤ 60 * minute)
      × ((m : ℕ) → minutes ≡ pos m → 0 < m → m ≤ 60 → impersonation_ttl minutes ≡ m * minute)
unfolding impersonation_ttl duration_bits
impersonation_ttl_bounds (pos m) = (ground arith, ground arith, λ k e low high. ground arith)
impersonation_ttl_bounds (negsuc m) = (ground arith, ground arith, λ k e low high. ground arith)

abbrev pub viewing : Session → ℤ → ℕ → Session
viewing sess target until = record sess {
  impersonating_user_id = some target;
  impersonation_expires_at = some until;
}

set_impersonation-row :
    (hash : Text) (target : ℤ) (until : ℕ) (db : Db) (sess : Session) (done : Unit {0})
    → first_where (λ s. s.token_hash == hash) db.sessions ≡ some sess
    → (set_impersonation hash target until db).0 ≡ ok done
    → first_where (λ s. s.token_hash == hash) (set_impersonation hash target until db).1.sessions
      ≡ some (viewing sess target (from_unix (unix until)))
unfolding set_impersonation
set_impersonation-row hash target until db sess done at made =
    elim (Bool-cases (any (λ (s : Session). s.token_hash == hash) db.sessions)) [
      | inr n ↦ ground (arith, n)
      | inl y ↦ rw y (
          first_where-updated (λ (s : Session). s.token_hash == hash)
            (λ (s : Session). viewing s target (from_unix (unix until))) db.sessions sess
            (λ r. refl) at)
    ]

set_impersonation-others :
    (hash h : Text) (target : ℤ) (until : ℕ) (db : Db)
    → h ≢ hash
    → first_where (λ s. s.token_hash == h) (set_impersonation hash target until db).1.sessions
      ≡ first_where (λ s. s.token_hash == h) db.sessions
unfolding set_impersonation
set_impersonation-others hash h target until db ne =
    elim (Bool-cases (any (λ (s : Session). s.token_hash == hash) db.sessions)) [
      | inr n ↦ rw n refl
      | inl y ↦ rw y (
          first_where-update_where (λ (s : Session). s.token_hash == h)
            (λ (s : Session). s.token_hash == hash)
            (λ (s : Session). viewing s target (from_unix (unix until))) db.sessions (λ r. refl)
            (λ r e. ground (arith, text_beq_iff r.token_hash h, text_beq_iff r.token_hash hash)))
    ]

viewed_until :
    (t : ℕ) (sess : Session) (target : ℤ) (until : ℕ)
    → viewed t (viewing sess target until) ≡ (if ltb t until then some target else none)
unfolding viewed
viewed_until t sess target until = refl

scanned_of : (o : Option User) (u : User) → scanned o ≡ ok u → o ≡ some u
scanned_of none u h = ground arith
scanned_of (some v) u h = ground arith

get_user-id : (id : ℤ) (db : Db) (u : User) → get_user id db ≡ ok u → u.id ≡ id
unfolding get_user
get_user-id id db u h =
    let at : first_where (λ (v : User). v.id == id) db.users ≡ some u =
      scanned_of (first_where (λ (v : User). v.id == id) db.users) u h in
    (int_beq_iff u.id id).0 (first_where_holds (λ (v : User). v.id == id) db.users at)

module _ (env : Env) (ctx : Context) (body : Result ℕ (ℤ × ℤ)) (s : Control) where
  -- Whom a request to view asks for.
  pub record IsTarget (target : User) (minutes : ℤ) : Type 0 where
    pub asked : body ≡ ok (target.id, minutes)
    pub somebody : target.id ≢ pos 0
    pub other : target.id ≢ ctx.real_user.id
    pub known : get_user target.id s.db ≡ ok target

  pair_of :
      (target given : User) (minutes m : ℤ)
      → ◌≡◌ {A = Result ℕ (User × ℤ)} (ok (given, m)) (ok (target, minutes))
      → (given ≡ target) × (m ≡ minutes)
  pair_of target given minutes m h = (cc, cc)

  target_of-IsTarget :
      (target : User) (minutes : ℤ)
      → target_of env ctx body s.db ≡ ok (target, minutes)
      → IsTarget target minutes
  unfolding target_of
  target_of-IsTarget target minutes h =
      let ((id, m), asked, h1) = >>=-eq-ok body _ h in
      let (some_id, h2) = require-eq-ok (not (id == pos 0)) 400 _ h1 in
      let (other_id, h3) = require-eq-ok (not (id == ctx.real_user.id)) 400 _ h2 in
      let (given, known, h4) =
        or_else->>= 404 (unless_fault env.load_fault (get_user id s.db)) _ h3 in
      let (same, same_minutes) = pair_of target given minutes m h4 in
      let read : get_user id s.db ≡ ok target =
        read_of (get_user id s.db) given target known same in
      let found : target.id ≡ id = get_user-id id s.db target read in
      record {
        asked = asked ∙ ap ok (λ i. (sym found i, same_minutes i));
        somebody = λ e. ground (arith, int_beq_iff id (pos 0));
        other = λ e. ground (arith, int_beq_iff id ctx.real_user.id);
        known = subst (λ (i : ℤ). get_user i s.db ≡ ok target) (sym found) read;
      }
    where
      read_of :
          (r : Result Error User) (given target : User)
          → unless_fault env.load_fault r ≡ ok given
          → given ≡ target
          → r ≡ ok target
      read_of r given target k same = ground (arith, k, same)

  -- What a request to view has set: the row of the caller's session shows the target until the
  -- time `until`, as the middleware reads it.
  pub record IsViewed (sess : Session) (after : Control) : Type 0 where
    pub target : User
    pub minutes : ℤ
    pub requested : IsTarget target minutes
    pub until : ℕ
    pub bounded : until ≤ env.now + 60 * minute
    pub row :
        first_where (λ r. r.token_hash == ctx.session_hash) after.db.sessions
        ≡ some (viewing sess target.id until)
    pub seen :
        (t : ℕ)
        → viewed t (viewing sess target.id until) ≡ (if ltb t until then some target.id else none)
    pub others :
        (h : Text)
        → h ≢ ctx.session_hash
        → first_where (λ r. r.token_hash == h) after.db.sessions
          ≡ first_where (λ r. r.token_hash == h) s.db.sessions

  noted_sessions :
      (target : User) (mid : Db) (status : ℕ) (done : Unit {0}) (after : Control)
      → impersonation_noted env ctx
          (impersonation_event ctx.real_user.email target.email
            (lit "impersonate_start")
            (some target.id))
          (with_db mid s)
        ≡ (wrote status done, after)
      → after.db.sessions ≡ mid.sessions
  unfolding impersonation_noted append_audit
  noted_sessions target mid status done after h = elim (Option-cases env.audit_fault) [
    | inl fine ↦ ground (arith, fine)
    | inr (e, bad) ↦ ground (arith, bad)
  ]

  set_of :
      (target : User) (minutes : ℤ) (sess : Session) (made : Unit {0}) (status : ℕ)
      (done : Unit {0}) (after : Control)
      → IsTarget target minutes
      → first_where (λ r. r.token_hash == ctx.session_hash) s.db.sessions ≡ some sess
      → (set_impersonation ctx.session_hash target.id (env.now + impersonation_ttl minutes) s.db).0
        ≡ ok made
      → after.db.sessions
        ≡ (set_impersonation ctx.session_hash target.id
            (env.now + impersonation_ttl minutes)
            s.db).1.sessions
      → IsViewed sess after
  set_of target minutes sess made status done after requested at ok_write same =
      let expiry = env.now + impersonation_ttl minutes in
      record {
        target = target;
        minutes = minutes;
        requested = requested;
        until = from_unix (unix expiry);
        bounded = omega (arith, (impersonation_ttl_bounds minutes).1);
        row =
            ap (λ (rows : List Session). first_where (λ r. r.token_hash == ctx.session_hash) rows)
              same
            ∙ set_impersonation-row ctx.session_hash target.id expiry s.db sess made at ok_write;
        seen = λ t. viewed_until t sess target.id (from_unix (unix expiry));
        others = λ h ne.
            ap (λ (rows : List Session). first_where (λ r. r.token_hash == h) rows) same
            ∙ set_impersonation-others ctx.session_hash h target.id expiry s.db ne;
      }

  -- A request to view that succeeds asked for a user that exists, is not the caller and has not
  -- the id 0. The caller's session then shows that user until a time that lies at most an hour
  -- ahead, however many minutes were asked for, and not from then on; other sessions stay.
  pub handle_start_impersonation-IsViewed :
      (sess : Session) (status : ℕ) (done : Unit {0}) (after : Control)
      → first_where (λ r. r.token_hash == ctx.session_hash) s.db.sessions ≡ some sess
      → handle_start_impersonation env ctx body s ≡ (wrote status done, after)
      → IsViewed sess after
  unfolding handle_start_impersonation
  handle_start_impersonation-IsViewed sess status done after at h =
      elim (Result-cases (target_of env ctx body s.db)) [
        | inr (bad, t) ↦ ground (arith, t)
        | inl ((target, minutes), t) ↦ elim (Option-cases env.write_fault) [
          | inr (e, w) ↦ ground (arith, t, w)
          | inl w ↦
              elim (Result-cases
                (set_impersonation ctx.session_hash target.id (env.now + impersonation_ttl minutes)
                  s.db).0) [
                    | inr (e, m) ↦ ground (arith, t, w, m)
                    | inl (made, m) ↦
                        set_of target minutes sess made status done after
                          (target_of-IsTarget target minutes t) at m
                          (noted_sessions target
                            (set_impersonation ctx.session_hash target.id
                              (env.now + impersonation_ttl minutes) s.db).1
                            status done after (ground (arith, t, w, m)))
                  ]
        ]
      ]
