-- ===== src/Examples/EgressCases.antt =====
-- Runs of the egress proxy.
use gigmcp.Base.{
  Text, List, [], ◌∷◌, ℕ, ◌+◌, true, false, ◌≡◌, ◌↔◌, refl, lit, leb, ◌&&◌, if◌then◌else◌, none,
  some, Result, ok, arith, lookup, insert, delete, text_beq, has_prefix, has_suffix, contains,
  replace_all, Has, comparable_text,
}
use gigmcp.Proxy.{Identity, Credential, identity_beq, comparable_identity}
use gigmcp.Proxy.Registry.{Registry, find}
use gigmcp.Proxy.Limiter.{
  ConnLimiter, new_conn_limiter, acquire, release, count_of, IsCounted, connected, connects, start,
  next, idle, Reach-idle-IsCounted, System, Reach,
}
use gigmcp.Proxy.Allow.{CaseTable, host_allowed, Permits, host_allowed_iff}
use gigmcp.Proxy.Inject.{Header, Request, Round, canonical, get, set, injected, asks, inject, pump}
use gigmcp.Proxy.Inject.Headers.{AreForwarded, pump-AreForwarded}
use gigmcp.Proxy.Inject.Secrecy.{pump-with_secret, NeverAsks}
use gigmcp.Proxy.Tunnel.{Connect, Env, tunnel, hostname, admitted, handle}
use gigmcp.Proxy.Tunnel.Gate.{IsEntitled, handle-IsEntitled, handle-count_of}

-- The tables restricted to ASCII, where lower case stands for the orbit too.
pub ascii_lower : ℕ → ℕ
ascii_lower c = if leb b'A' c && leb c b'Z' then c + 32 else c

pub dot_of_ascii_lower : (c : ℕ) → ascii_lower c ≡ b'.' → c ≡ b'.'
unfolding ascii_lower
dot_of_ascii_lower c h = ground arith

pub ascii_lower-dot : ascii_lower b'.' ≡ b'.'
unfolding ascii_lower
ascii_lower-dot = refl

instance abbrev pub ascii : CaseTable
ascii = record {
  to_lower = ascii_lower;
  fold = ascii_lower;
  lower_dot = ascii_lower-dot;
  dot_of_lower = dot_of_ascii_lower;
}

abbrev hosts : List Text
hosts = lit "slack.com" ∷ lit "*.GitHub.com" ∷ []

allowed : host_allowed (lit "API.github.com") hosts ≡ true
unfolding host_allowed ascii_lower has_prefix has_suffix contains text_beq
allowed = refl

-- Two labels under the wildcard, and its apex, are refused.
refused_deep : host_allowed (lit "a.b.github.com") hosts ≡ false
unfolding host_allowed ascii_lower has_prefix has_suffix contains text_beq
refused_deep = refl

refused_apex : host_allowed (lit "github.com") hosts ≡ false
unfolding host_allowed ascii_lower has_prefix has_suffix contains text_beq
refused_apex = refl

host_allowed_iff_example :
    (host_allowed (lit "API.github.com") hosts ≡ true) ↔ Has (Permits (lit "API.github.com")) hosts
host_allowed_iff_example = host_allowed_iff (lit "API.github.com") hosts

abbrev pub cred : Credential
cred = record {
  real_secret = lit "s3cret";
  inject_header = lit "Authorization";
  inject_format = lit "Bearer {token}";
  placeholder = lit "gigph-1";
  allowed_hosts = hosts;
}

abbrev pub tenant : Identity
tenant = record { server = lit "github"; tenant = lit "7" }

abbrev resolve : Identity → Text → Result Text Credential
resolve id host = ok cred

abbrev registry : Registry
registry = record { m = (lit "10.88.0.2", tenant) ∷ [] }

abbrev limiter : ConnLimiter
limiter = record { count = (tenant, 63) ∷ []; max = 64 }

abbrev pub connect : Connect
connect = record {
  method = lit "CONNECT";
  remote_addr = lit "10.88.0.2:40000";
  host = lit "api.github.com:443";
}

abbrev env : Env
env = record { hijacker = true; hijacked = true; greeted = true; leaf = true; handshake = true }

opens :
    (handle resolve registry limiter connect env).1 ≡ tunnel (lit "api.github.com:443") tenant cred
unfolding handle admitted acquire release find lookup insert delete hostname host_allowed
    ascii_lower has_prefix has_suffix contains text_beq identity_beq
opens = refl

handle-IsEntitled_example :
    IsEntitled resolve registry limiter connect (lit "api.github.com:443") tenant cred
handle-IsEntitled_example =
    handle-IsEntitled resolve registry limiter connect env (lit "api.github.com:443") tenant cred
      opens

handle-count_of_example :
    count_of (handle resolve registry limiter connect env).0 tenant ≡ count_of limiter tenant
handle-count_of_example = handle-count_of resolve registry limiter connect env tenant

abbrev asking : Header
asking = (lit "Authorization", lit "Basic gigph-1" ∷ []) ∷ (lit "Accept", lit "text/html" ∷ []) ∷ []

-- What the sandbox wrote round the placeholder is gone.
rewritten : get (lit "authorization") (inject cred asking) ≡ lit "Bearer s3cret"
unfolding get inject set injected asks canonical lookup insert delete text_beq contains replace_all
    has_prefix
rewritten = refl

abbrev silent : Request
silent = record {
  method = lit "GET";
  header = (lit "Accept", lit "gigph-1" ∷ []) ∷ [];
  close = false;
}

abbrev rounds : List Round
rounds =
    record { request = some silent; written = true; response_close = some false; returned = true }
    ∷ record { request = none; written = true; response_close = none; returned = false }
    ∷ []

silent_unasked : contains (get cred.inject_header silent.header) cred.placeholder ≡ false
unfolding get canonical lookup text_beq contains has_prefix
silent_unasked = refl

rounds-NeverAsks : NeverAsks cred rounds
rounds-NeverAsks = ((λ req e. rw (silent_is req e) silent_unasked), ((λ req e. cc), tt))
  where
    silent_is : (req : Request) → some silent ≡ some req → req ≡ silent
    silent_is req e = cc

pump-with_secret_example : pump cred rounds ≡ pump (record cred { real_secret = [] }) rounds
pump-with_secret_example = pump-with_secret cred [] rounds rounds-NeverAsks

abbrev asking_rounds : List Round
asking_rounds =
    record {
      request = some (record silent { header = asking });
      written = true;
      response_close = some true;
      returned = true;
    }
    ∷ rounds

pump-AreForwarded_example : AreForwarded cred asking_rounds (pump cred asking_rounds)
pump-AreForwarded_example = pump-AreForwarded cred asking_rounds

abbrev two_asked : System
two_asked = connected tenant (connected tenant (idle 1))

two_reached : Reach (idle 1) two_asked
two_reached = next (next start (connects tenant)) (connects tenant)

-- The second CONNECT found no slot.
one_live : two_asked.live tenant ≡ 1
unfolding acquire count_of new_conn_limiter lookup insert delete identity_beq text_beq
one_live = refl

Reach-idle-IsCounted_example : IsCounted 1 two_asked
Reach-idle-IsCounted_example = Reach-idle-IsCounted 1 two_reached
