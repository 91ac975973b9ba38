-- ===== src/Auth/Flow.antt =====
-- internal/auth/oauthbroker.go and oidc.go: the signed cookie that carries a flow from its start to
-- its callback. encoding/json, base64 and the HMAC under the key of the process are parameters.
pub mod Signing
use gigmcp.Base.{
  Text, List, [], ◌∷◌, ◌++◌, ℕ, ℤ, pos, negsuc, Bool, true, ltb, ◌==◌, comparable_text, nat_beq,
  if◌then◌else◌, Option, none, some, Result, ok, err, ◌>>=◌, lit,
}
use gigmcp.Store.Types.{Error, failure, unix}

-- What json.Marshal, json.Unmarshal, base64.RawURLEncoding and hmac.New(sha256.New, key) give.
pub record Codec (F : Type 0) : Type 0 where
  pub marshal : F → Result Error Text
  pub unmarshal : Text → Result Error F
  pub encode : Text → Text
  pub decode : Text → Result Error Text
  pub mac : Text → Text
  -- the field `expires`, in seconds
  pub expires : F → ℤ

-- strings.SplitN(v, ".", 2) of two parts
unfoldable pub cut_dot : Text → Option (Text × Text)
cut_dot [] = none
cut_dot (c ∷ s) =
    if nat_beq c b'.'
    then some ([], s)
    else elim (cut_dot s) [ none ↦ none | some (before, after) ↦ some (c ∷ before, after) ]

-- now.Unix() > expires
unfoldable pub is_past : ℤ → ℕ → Bool
is_past (pos n) now = ltb n (unix now)
is_past (negsuc n) now = true

module _ {F : Type 0} (c : Codec F) where
  abbrev pub cookie_of : Text → Text
  cookie_of payload = c.encode payload ++ b'.' ∷ c.encode (c.mac payload)

  unfoldable pub sign_flow : F → Result Error Text
  sign_flow fs = c.marshal fs >>= λ payload. ok (cookie_of payload)

  -- From the JSON text on.
  unfoldable pub read_flow : ℕ → Text → Result Error F
  unfolding is_past
  read_flow now payload = c.unmarshal payload >>= λ fs.
      if is_past (c.expires fs) now then err (failure (lit "flow expired")) else ok fs

  unfoldable pub verify_parts : ℕ → Text → Text → Result Error F
  unfolding read_flow
  verify_parts now left right = c.decode left >>= λ payload. c.decode right >>= λ sig.
      if sig == c.mac payload
      then read_flow now payload
      else err (failure (lit "bad flow cookie signature"))

  unfoldable pub verify_flow : ℕ → Text → Result Error F
  unfolding cut_dot verify_parts
  verify_flow now v = elim (cut_dot v) [
    | none ↦ err (failure (lit "malformed flow cookie"))
    | some (left, right) ↦ verify_parts now left right
  ]
