-- ===== src/Proxy/Inject/Headers.antt =====
-- What the upstream is sent of the requests of a sandbox.
use gigmcp.Base.{
  Text, List, [], ◌∷◌, ◌≡◌, ◌≢◌, ◌⊎◌, inl, inr, refl, subst, ap, ◌∙◌, ◌&&◌, not, true, false,
  if◌then◌else◌, ◌==◌, comparable_text, arith, lookup-insert, contains, replace_all, lit, none,
  some, Bool-cases, Option-cases, text_beq_iff,
}
use gigmcp.Proxy.{Credential}
use gigmcp.Proxy.Inject.{
  Header, Request, Round, canonical, get, set, asks, injected, inject, answer, forward, pump,
}

get-set :
    (key other value : Text) (h : Header)
    → get other (set key value h)
      ≡ (if canonical key == canonical other then value else get other h)
unfolding get set
get-set key other value h =
    ground (arith, lookup-insert (canonical key) (canonical other) (value ∷ []) h)

-- The secret as the format of the credential dictates: the bare secret without a format, and else the
-- format with the secret for each "{token}".
abbrev pub IsDictated : Credential → Text → Type 0
IsDictated cred v =
    ((cred.inject_format ≡ []) × (v ≡ cred.real_secret))
    ⊎ ((cred.inject_format ≢ [])
        × (v ≡ replace_all cred.inject_format (lit "{token}") cred.real_secret))

-- The sandbox put a placeholder that is not empty into the configured header.
abbrev pub IsAsking : Credential → Header → Type 0
IsAsking cred h =
    (cred.inject_header ≢ [])
    × (cred.placeholder ≢ [])
    × (contains (get cred.inject_header h) cred.placeholder ≡ true)

-- What becomes of the headers: the whole of the configured one is replaced where the sandbox asks,
-- and every other one stays; where it does not ask all stay.
pub data IsRewritten (cred : Credential) (before after : Header) : Type 0 where
  replaced :
      (v : Text)
      → IsAsking cred before
      → IsDictated cred v
      → get cred.inject_header after ≡ v
      → ((other : Text)
          → canonical cred.inject_header ≢ canonical other
          → get other after ≡ get other before)
      → IsRewritten cred before after
  kept : ¬ IsAsking cred before → after ≡ before → IsRewritten cred before after

-- A round after which the loop goes on: both peers took what they were handed, and neither asked to
-- close.
abbrev pub IsOpen : Round → Request → Type 0
IsOpen r req =
    (r.written ≡ true) × (r.response_close ≡ some false) × (r.returned ≡ true) × (req.close ≡ false)

-- What reaches the upstream in a session: a request for each that is read, of which only the headers
-- are rewritten, until a read fails or a round ends the loop.
abbrev pub AreForwarded : Credential → List Round → List Request → Type 0
AreForwarded cred [] got = got ≡ []
AreForwarded cred (r ∷ rounds) [] = r.request ≡ none
AreForwarded cred (r ∷ rounds) (got ∷ more) =
    (req : Request) × (r.request ≡ some req)
    × (got.method ≡ req.method)
    × (got.close ≡ req.close)
    × IsRewritten cred req.header got.header
    × ((IsOpen r req × AreForwarded cred rounds more) ⊎ (¬ IsOpen r req × (more ≡ [])))

answer-cases :
    (r : Round) (req got : Request) (more : List Request)
    → got.close ≡ req.close
    → (IsOpen r req × (answer r got more ≡ got ∷ more))
      ⊎ (¬ IsOpen r req × (answer r got more ≡ got ∷ []))
unfolding answer
answer-cases r req got more c = elim (Option-cases r.response_close) [
  | inl e ↦ inr ((λ o. ground (arith, e, o.1)), ground (arith, e))
  | inr (close, e) ↦ elim (Bool-cases (r.written && not close && r.returned && not req.close)) [
    | inl open_ ↦
        inl (
          (ground arith, e ∙ ap some (ground arith), ground arith, ground arith),
          ground (arith, e),
        )
    | inr shut ↦ inr ((λ o. ground (arith, e, o.0, o.1, o.2, o.3)), ground (arith, e))
  ]
]

module _ (cred : Credential) where
  asks_of : (h : Header) → asks cred h ≡ true → IsAsking cred h
  unfolding asks
  asks_of h e = (
    (λ k. ground (arith, text_beq_iff cred.inject_header [])),
    (λ k. ground (arith, text_beq_iff cred.placeholder [])),
    ground arith,
  )

  asked : (h : Header) → asks cred h ≡ false → ¬ IsAsking cred h
  unfolding asks
  asked h e (header, placeholder, there_) =
      ground (arith, text_beq_iff cred.inject_header [], text_beq_iff cred.placeholder [])

  injected-IsDictated : IsDictated cred (injected cred)
  unfolding injected
  injected-IsDictated = elim (Bool-cases (cred.inject_format == [])) [
    | inl e ↦ inl ((text_beq_iff cred.inject_format []).0 e, ground (arith, e))
    | inr e ↦ inr ((λ k. ground (arith, text_beq_iff cred.inject_format [])), ground (arith, e))
  ]

  inject-IsRewritten : (h : Header) → IsRewritten cred h (inject cred h)
  unfolding inject
  inject-IsRewritten h = elim (Bool-cases (asks cred h)) [
    | inl e ↦
        let done : set cred.inject_header (injected cred) h ≡ inject cred h = ground (arith, e) in
        subst (λ (after : Header). IsRewritten cred h after) done
          (replaced (injected cred) (asks_of h e) injected-IsDictated
            (get-set cred.inject_header cred.inject_header (injected cred) h
              ∙ ground (
                arith,
                text_beq_iff (canonical cred.inject_header) (canonical cred.inject_header),
              ))
            (λ other differ.
              get-set cred.inject_header other (injected cred) h
              ∙ ground (arith, text_beq_iff (canonical cred.inject_header) (canonical other))))
    | inr e ↦ kept (asked h e) (ground (arith, e))
  ]

  -- Each request that is read is handed to the upstream, in order, with method and connection option
  -- as sent, until a read or a write fails or a peer closes. Where the sandbox put the credential's
  -- placeholder into the configured header, and neither is empty, this header reads as the secret, in
  -- the format of the credential if it has one, and every other header reads as sent; else all
  -- headers are as sent.
  pub pump-AreForwarded : (rounds : List Round) → AreForwarded cred rounds (pump cred rounds)
  unfolding pump forward
  pump-AreForwarded [] = refl
  pump-AreForwarded (r ∷ rounds) = elim (Option-cases r.request) [
    | inl e ↦ rw e refl
    | inr (req, e) ↦ rw e (elim (answer-cases r req (forward cred req) (pump cred rounds) refl) [
      | inl (open_, made) ↦ rw made (
        req,
        refl,
        refl,
        refl,
        inject-IsRewritten req.header,
        inl (open_, pump-AreForwarded rounds),
      )
      | inr (shut, made) ↦
          rw made (req, refl, refl, refl, inject-IsRewritten req.header, inr (shut, refl))
    ])
  ]
