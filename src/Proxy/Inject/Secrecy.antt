-- ===== src/Proxy/Inject/Secrecy.antt =====
-- The real secret reaches the upstream only where the sandbox asked for it.
use gigmcp.Base.{
  Text, List, [], ◌∷◌, false, contains, ◌≡◌, refl, All, some, arith, Option-cases, inl, inr,
}
use gigmcp.Proxy.{Credential}
use gigmcp.Proxy.Inject.{Request, Round, get, asks, inject, forward, pump}

abbrev with_secret : Credential → Text → Credential
with_secret cred secret = record cred { real_secret = secret }

-- No request of the sandbox holds the placeholder in the configured header.
abbrev pub NeverAsks : Credential → List Round → Type 0
NeverAsks cred = All (λ r.
    (req : Request)
    → r.request ≡ some req
    → contains (get cred.inject_header req.header) cred.placeholder ≡ false)

forward_unasked :
    (cred : Credential) (secret : Text) (req : Request)
    → contains (get cred.inject_header req.header) cred.placeholder ≡ false
    → forward cred req ≡ forward (with_secret cred secret) req
unfolding forward inject asks
forward_unasked cred secret req h = ground arith

-- When no request of a session holds the placeholder in the configured header, what the upstream is
-- sent does not depend on the real secret.
pub pump-with_secret :
    (cred : Credential) (secret : Text) (rounds : List Round)
    → NeverAsks cred rounds
    → pump cred rounds ≡ pump (with_secret cred secret) rounds
unfolding pump
pump-with_secret cred secret [] h = refl
pump-with_secret cred secret (r ∷ rs) (h, hs) = elim (Option-cases r.request) [
  | inl e ↦ rw (e, pump)
  | inr (req, e) ↦
      rw (e, pump)
        (cc (forward_unasked cred secret req (h req e), pump-with_secret cred secret rs hs))
]
