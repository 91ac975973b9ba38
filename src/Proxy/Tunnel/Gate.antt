-- ===== src/Proxy/Tunnel/Gate.antt =====
-- What has held when a tunnel to an upstream opens, and that every path gives its slot back.
use gigmcp.Base.{
  Text, ap, ◌∙◌, true, ◌≡◌, lit, comparable_text, text_beq_iff, arith, none, some, Result, ok, Has,
  Option-cases, inl, inr,
}
use gigmcp.Proxy.{Identity, Credential}
use gigmcp.Proxy.Registry.{Registry, find}
use gigmcp.Proxy.Limiter.{ConnLimiter, acquire, count_of, acquire_refused, count_of-release-acquire}
use gigmcp.Proxy.Allow.{CaseTable, host_allowed, host_allowed_iff, Permits}
use gigmcp.Proxy.Tunnel.{Connect, Env, tunnel, hostname, admitted, handle}

module _ {ℓ} ⦃t : CaseTable⦄ {E : Type ℓ} (resolve : Identity → Text → Result E Credential) where
  -- The conditions under which the upstream is dialled.
  pub record IsEntitled (reg : Registry) (l : ConnLimiter) (r : Connect) (hostport : Text)
      (id : Identity) (cred : Credential) : Type ℓ where
    pub method : r.method ≡ lit "CONNECT"
    pub known : find (hostname r.remote_addr) reg ≡ some id
    pub granted : (acquire id l).1 ≡ true
    pub resolved : resolve id (hostname r.host) ≡ ok cred
    pub permitted : Has (Permits (hostname r.host)) cred.allowed_hosts
    pub same_host : hostport ≡ r.host

  admitted-tunnel :
      (id id' : Identity) (r : Connect) (env : Env) (hostport : Text) (cred : Credential)
      → admitted resolve id r env ≡ tunnel hostport id' cred
      → (id ≡ id')
        × (resolve id (hostname r.host) ≡ ok cred)
        × (host_allowed (hostname r.host) cred.allowed_hosts ≡ true)
        × (hostport ≡ r.host)
  unfolding admitted
  admitted-tunnel id id' r env hostport cred e = ground arith

  handle_known :
      (reg : Registry) (l : ConnLimiter) (r : Connect) (env : Env) (id id' : Identity)
      (hostport : Text) (cred : Credential)
      → find (hostname r.remote_addr) reg ≡ some id'
      → (handle resolve reg l r env).1 ≡ tunnel hostport id cred
      → (r.method ≡ lit "CONNECT")
        × ((acquire id' l).1 ≡ true)
        × (admitted resolve id' r env ≡ tunnel hostport id cred)
  unfolding handle
  handle_known reg l r env id id' hostport cred known e =
      ground (arith, text_beq_iff r.method (lit "CONNECT"))

  handle_unknown :
      (reg : Registry) (l : ConnLimiter) (r : Connect) (env : Env) (id : Identity) (hostport : Text)
      (cred : Credential)
      → find (hostname r.remote_addr) reg ≡ none
      → ¬ ((handle resolve reg l r env).1 ≡ tunnel hostport id cred)
  unfolding handle
  handle_unknown reg l r env id hostport cred unknown = ground arith

  -- A tunnel opens only for a CONNECT from a registered source with a slot left, to a host that
  -- the resolved credential's allowlist permits, and it goes to the host that was checked.
  pub handle-IsEntitled :
      (reg : Registry) (l : ConnLimiter) (r : Connect) (env : Env) (hostport : Text) (id : Identity)
      (cred : Credential)
      → (handle resolve reg l r env).1 ≡ tunnel hostport id cred
      → IsEntitled reg l r hostport id cred
  handle-IsEntitled reg l r env hostport id cred e =
      elim (Option-cases (find (hostname r.remote_addr) reg)) [
        | inl unknown ↦ absurd (handle_unknown reg l r env id hostport cred unknown e)
        | inr (id', known) ↦
            let (method, granted, opens) = handle_known reg l r env id id' hostport cred known e in
            let (same, resolved, allowed, same_host) =
              admitted-tunnel id' id r env hostport cred opens in
            record {
              method = method;
              known = known ∙ ap some same;
              granted = rw (← same) granted;
              resolved = rw (← same) resolved;
              permitted = (host_allowed_iff (hostname r.host) cred.allowed_hosts).0 allowed;
              same_host = same_host;
            }
      ]

  -- On every path the count of every tenant is afterwards what it was before.
  pub handle-count_of :
      (reg : Registry) (l : ConnLimiter) (r : Connect) (env : Env) (id : Identity)
      → count_of (handle resolve reg l r env).0 id ≡ count_of l id
  unfolding handle
  handle-count_of reg l r env id = elim (Option-cases (find (hostname r.remote_addr) reg)) [
    | inl unknown ↦ ground arith
    | inr (id', known) ↦ ground (arith, acquire_refused id' l, count_of-release-acquire id' id l)
  ]
