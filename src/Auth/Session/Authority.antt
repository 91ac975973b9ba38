-- ===== src/Auth/Session/Authority.antt =====
-- What a request that passes the middleware has shown.
use gigmcp.Base.{
  Text, [], ◌∷◌, ℕ, ℤ, true, false, ◌≡◌, ◌⊎◌, inl, inr, refl, comparable_text, Option, none, some,
  Result, ok, err, lit, arith, text_beq_iff, Option-cases, Result-cases,
}
use gigmcp.Store.Types.{Session, User, Error, session_not_found, user_not_found}
use gigmcp.Auth.Session.{
  Context, Request, passed, stop_impersonation_path, impersonation_safe_method, guarded, as_self,
  as_other, viewed, with_user, with_session, session_middleware,
}

-- The methods and paths that view-as lets through.
abbrev pub IsViewing : Request → Type 0
IsViewing r =
    (r.method ≡ lit "GET")
    ⊎ (r.method ≡ lit "HEAD")
    ⊎ ((r.method ≡ lit "DELETE") × (r.path ≡ stop_impersonation_path))

-- Whom the request acts for: the real user, or for as long as view-as lasts its target, if the
-- request changes nothing.
pub record IsActing (get_user : ℤ → Result Error User) (now : ℕ) (r : Request) (sess : Session)
    (ctx : Context) : Type 0 where
  pub real : get_user sess.user_id ≡ ok ctx.real_user
  pub self : ctx.impersonating ≡ false → ctx.effective_user ≡ ctx.real_user
  pub other :
      ctx.impersonating ≡ true
      → ((id : ℤ) × (viewed now sess ≡ some id) × (get_user id ≡ ok ctx.effective_user))
        × IsViewing r

module _ (get_user : ℤ → Result Error User) (now : ℕ) (r : Request) (sess : Session) where
  guarded_same : (ctx made : Context) → guarded r made ≡ passed ctx → ctx ≡ made
  unfolding guarded
  guarded_same ctx made e = ground arith

  guarded-IsViewing :
      (ctx : Context) → ctx.impersonating ≡ true → guarded r ctx ≡ passed ctx → IsViewing r
  unfolding guarded impersonation_safe_method
  guarded-IsViewing ctx on e = ground (
    arith,
    text_beq_iff r.method (lit "GET"),
    text_beq_iff r.method (lit "HEAD"),
    text_beq_iff r.method (lit "DELETE"),
    text_beq_iff r.path stop_impersonation_path,
  )

  self-IsActing :
      (hash : Text) (user : User) (ctx : Context)
      → get_user sess.user_id ≡ ok user
      → guarded r (as_self hash user) ≡ passed ctx
      → IsActing get_user now r sess ctx
  self-IsActing hash user ctx known e =
      let same : ctx ≡ as_self hash user = guarded_same ctx (as_self hash user) e in
      rw same (record { real = known; self = λ off. refl; other = λ on. ground arith })

  other-IsActing :
      (hash : Text) (user target : User) (id : ℤ) (ctx : Context)
      → get_user sess.user_id ≡ ok user
      → viewed now sess ≡ some id
      → get_user id ≡ ok target
      → guarded r (as_other hash user target) ≡ passed ctx
      → IsActing get_user now r sess ctx
  other-IsActing hash user target id ctx known view found e =
      let same : ctx ≡ as_other hash user target = guarded_same ctx (as_other hash user target) e in
      rw same (record {
        real = known;
        self = λ off. ground arith;
        other = λ on. (
          (id, view, found),
          guarded-IsViewing (as_other hash user target) refl (ground (arith, e, same)),
        );
      })

module _ (get_user : ℤ → Result Error User) (hash_token : Text → Text)
    (get_session : Text → Result Error Session) where
  with_user-IsActing :
      (now : ℕ) (r : Request) (hash : Text) (sess : Session) (user : User) (ctx : Context)
      → get_user sess.user_id ≡ ok user
      → with_user hash_token get_session get_user now r hash sess user ≡ passed ctx
      → IsActing get_user now r sess ctx
  unfolding with_user
  with_user-IsActing now r hash sess user ctx known e = elim (Option-cases (viewed now sess)) [
    | inl none_viewed ↦
        self-IsActing get_user now r sess hash user ctx known (ground (arith, none_viewed))
    | inr (id, view) ↦ elim (Result-cases (get_user id)) [
      | inl (target, found) ↦
          other-IsActing get_user now r sess hash user target id ctx known view found
            (ground (arith, view, found))
      | inr (user_not_found, gone) ↦
          self-IsActing get_user now r sess hash user ctx known (ground (arith, view, gone))
      | inr (f, failed) ↦ ground (arith, view, failed)
    ]
  ]

  with_session-IsActing :
      (now : ℕ) (r : Request) (hash : Text) (sess : Session) (ctx : Context)
      → with_session hash_token get_session get_user now r hash sess ≡ passed ctx
      → IsActing get_user now r sess ctx
  unfolding with_session
  with_session-IsActing now r hash sess ctx e = elim (Result-cases (get_user sess.user_id)) [
    | inl (user, known) ↦ with_user-IsActing now r hash sess user ctx known (ground (arith, known))
    | inr (user_not_found, gone) ↦ ground (arith, gone)
    | inr (f, failed) ↦ ground (arith, failed)
  ]

-- A request that the middleware passes on carries a cookie whose hash names a session, and the
-- user of that session is its real user. It acts for that user, or, while the session's view-as
-- state lasts, for the target of that state; and then it is a GET, a HEAD, or the DELETE that ends
-- view-as.
pub session_middleware-IsActing :
    (hash_token : Text → Text) (get_session : Text → Result Error Session)
    (get_user : ℤ → Result Error User) (now : ℕ) (r : Request) (ctx : Context)
    → session_middleware hash_token get_session get_user now r ≡ passed ctx
    → (cookie : Text) × (sess : Session) × (r.cookie ≡ some cookie)
      × (get_session (hash_token cookie) ≡ ok sess)
      × IsActing get_user now r sess ctx
unfolding session_middleware
session_middleware-IsActing hash_token get_session get_user now r ctx e = by_cookie r.cookie refl
  where
    by_session :
        (c : ℕ) (value : Text)
        → r.cookie ≡ some (c ∷ value)
        → ((sess : Session) × (get_session (hash_token (c ∷ value)) ≡ ok sess))
          ⊎ ((f : Error) × (get_session (hash_token (c ∷ value)) ≡ err f))
        → (cookie : Text) × (sess : Session) × (r.cookie ≡ some cookie)
          × (get_session (hash_token cookie) ≡ ok sess)
          × IsActing get_user now r sess ctx
    by_session c value has (inl (sess, found)) = (
      c ∷ value,
      sess,
      has,
      found,
      with_session-IsActing get_user hash_token get_session now r (hash_token (c ∷ value)) sess ctx
          (ground (arith, has, found)),
    )
    by_session c value has (inr (session_not_found, missing)) = ground (arith, has, missing)
    by_session c value has (inr (f, missing)) = ground (arith, has, missing)

    by_cookie :
        (cookie : Option Text)
        → r.cookie ≡ cookie
        → (cookie : Text) × (sess : Session) × (r.cookie ≡ some cookie)
          × (get_session (hash_token cookie) ≡ ok sess)
          × IsActing get_user now r sess ctx
    by_cookie none has = ground (arith, has)
    by_cookie (some []) has = ground (arith, has)
    by_cookie (some (c ∷ value)) has =
        by_session c value has (Result-cases (get_session (hash_token (c ∷ value))))
