-- ===== src/Gateway/Serve.antt =====
-- internal/gateway/profilehost.go: serve, the endpoint of a profile. The hash is crypto/sha256's; the
-- store and getOrCreate answer by functions.
pub mod Rotation
use gigmcp.Base.{Text, List, [], ◌∷◌, ℕ, Option, none, some, Result, ok, err, lit, cut_prefix}
use gigmcp.Store.Types.{Profile, Error}
use gigmcp.Gateway.ProfileHost.{Runtime}

pub data Outcome : Type 0 where
  -- http.Error with this status
  refused : ℕ → Outcome
  -- the handler of this runtime answers
  served : Runtime → Outcome

module _ {ℓ} {E : Type ℓ} (hash_token : Text → Text) (lookup : Text → Text → Result Error Profile)
    (get_or_create : Profile → Result E Runtime) where
  unfoldable pub with_token : Text → Text → Outcome
  with_token slug token = elim (lookup slug (hash_token token)) [
    | err e ↦ refused 401
    | ok p ↦ elim (get_or_create p) [ err e ↦ refused 502 | ok rt ↦ served rt ]
  ]

  -- The Authorization header and the slug of the path.
  unfoldable pub serve : Text → Text → Outcome
  unfolding with_token cut_prefix
  serve authorization slug = elim (cut_prefix authorization (lit "Bearer ")) [
    | none ↦ refused 401
    | some [] ↦ refused 401
    | some (c ∷ token) ↦ with_token slug (c ∷ token)
  ]
