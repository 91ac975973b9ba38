-- ===== src/Proxy/Tunnel.antt =====
-- internal/proxy/proxy.go: hostname and handle, from the CONNECT request to the tunnel.
pub mod Gate
use gigmcp.Base.{
  Text, List, [], ◌∷◌, ◌++◌, ℕ, zero, suc, ◌+◌, ◌-◌, Bool, true, false, ◌≡◌, ◌&&◌, ◌||◌, not, lit,
  contains, take, drop, length, if◌then◌else◌, ◌==◌, comparable_text, arith, nat_beq, leb, ltb,
  Option, none, some, Result, ok, err, comparable_nat,
}
use gigmcp.Proxy.{Identity, Credential}
use gigmcp.Proxy.Registry.{Registry, find}
use gigmcp.Proxy.Limiter.{ConnLimiter, acquire, release}
use gigmcp.Proxy.Allow.{CaseTable, host_allowed}

abbrev map_suc : Option ℕ → Option ℕ
map_suc none = none
map_suc (some n) = some (suc n)

-- bytealg.IndexByteString and bytealg.LastIndexByteString
unfoldable pub index_of : ℕ → Text → Option ℕ
index_of b [] = none
index_of b (c ∷ s) = if nat_beq c b then some 0 else map_suc (index_of b s)

unfoldable pub last_index_of : ℕ → Text → Option ℕ
last_index_of b [] = none
last_index_of b (c ∷ s) = elim (last_index_of b s) [
  | some i ↦ some (suc i)
  | none ↦ if nat_beq c b then some 0 else none
]

abbrev has_byte : ℕ → Text → Bool
has_byte b s = elim (index_of b s) [ none ↦ false | some _ ↦ true ]

-- The host of a bracketed address, `end` being the place of `]` and `i` that of the last colon.
abbrev bracketed : Text → ℕ → ℕ → Option Text
bracketed hostport end i =
    if nat_beq (end + 1) i
    then if has_byte b'[' (drop 1 hostport) || has_byte b']' (drop (end + 1) hostport)
      then none
      else some (drop 1 (take end hostport))
    else none

abbrev unbracketed : Text → ℕ → Option Text
unbracketed hostport i =
    if has_byte b':' (take i hostport) || has_byte b'[' hostport || has_byte b']' hostport
    then none
    else some (take i hostport)

-- The host of net.SplitHostPort; `none` for its errors.
unfoldable pub split_host : Text → Option Text
unfolding index_of last_index_of
split_host hostport = elim (last_index_of b':' hostport) [
  | none ↦ none
  | some i ↦
      if nat_beq (elim hostport [ [] ↦ 0 | c ∷ _ ↦ c ]) b'['
      then elim (index_of b']' hostport) [ none ↦ none | some end ↦ bracketed hostport end i ]
      else unbracketed hostport i
]

unfoldable pub hostname : Text → Text
unfolding split_host
hostname hostport = elim (split_host hostport) [ none ↦ hostport | some h ↦ h ]

pub record Connect : Type 0 where
  pub method : Text
  pub remote_addr : Text
  pub host : Text

-- What the environment answers on the way to the tunnel: the hijack, the write of the status
-- line, the leaf certificate, the handshake with the sandbox.
pub record Env : Type 0 where
  pub hijacker : Bool
  pub hijacked : Bool
  pub greeted : Bool
  pub leaf : Bool
  pub handshake : Bool

pub data Outcome : Type 0 where
  -- http.Error with this status
  refused : ℕ → Outcome
  -- the connection is closed, and nothing is sent upstream
  dropped : Outcome
  -- `pump` runs with this host and port, tenant and credential
  tunnel : Text → Identity → Credential → Outcome

abbrev pub establish : Env → Outcome → Outcome
establish env t =
    if env.hijacker
    then if env.hijacked && env.greeted && env.leaf && env.handshake then t else dropped
    else refused 500

module _ {ℓ} ⦃t : CaseTable⦄ {E : Type ℓ} (resolve : Identity → Text → Result E Credential) where
  -- The part under `defer p.limiter.release(id)`.
  unfoldable pub admitted : Identity → Connect → Env → Outcome
  admitted id r env = elim (resolve id (hostname r.host)) [
    | err _ ↦ refused 403
    | ok cred ↦
        if host_allowed (hostname r.host) cred.allowed_hosts
        then establish env (tunnel r.host id cred)
        else refused 403
  ]

  -- The limiter afterwards stands beside the outcome.
  unfoldable pub handle : Registry → ConnLimiter → Connect → Env → ConnLimiter × Outcome
  handle reg l r env =
      if r.method == lit "CONNECT"
      then elim (find (hostname r.remote_addr) reg) [
        | none ↦ (l, refused 403)
        | some id ↦
            let (l', granted) = acquire id l in
            if granted then (release id l', admitted id r env) else (l', refused 429)
      ]
      else (l, refused 405)
