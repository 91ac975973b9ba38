-- ===== src/Proxy.antt =====
-- internal/proxy/proxy.go and registry.go: the types that the parts of the egress proxy share.
-- Registry, Limiter, Allow, Inject and Tunnel stand below.
pub mod Registry
pub mod Limiter
pub mod Allow
pub mod Inject
pub mod Tunnel
use gigmcp.Base.{
  Text, List, Bool, ◌≡◌, true, ◌↔◌, Comparable, ◌==◌, ◌&&◌, text_beq, text_beq_iff, comparable_text,
  arith,
}

-- The tenant that a sandbox connection belongs to.
pub record Identity : Type 0 where
  pub server : Text
  pub tenant : Text

unfoldable pub identity_beq : Identity → Identity → Bool
identity_beq a b = text_beq a.server b.server && text_beq a.tenant b.tenant

pub identity_beq_iff : (a b : Identity) → (identity_beq a b ≡ true) ↔ (a ≡ b)
unfolding identity_beq
identity_beq_iff a b =
    ground (arith, text_beq_iff a.server b.server, text_beq_iff a.tenant b.tenant)

instance abbrev pub comparable_identity : Comparable Identity
comparable_identity = record { test = identity_beq; decides = identity_beq_iff }

-- What a resolver returns: the secret, how to inject it, and the hosts that are allowed.
pub record Credential : Type 0 where
  pub real_secret : Text
  pub inject_header : Text
  pub inject_format : Text
  pub placeholder : Text
  pub allowed_hosts : List Text
