-- ===== src/Proxy/Inject.antt =====
-- internal/proxy/proxy.go: pump, which reads a sandbox's requests, puts the real secret into the
-- configured header, and forwards them. http.Header is a map from canonical keys to values.
pub mod Headers
pub mod Secrecy
use gigmcp.Base.{
  Text, List, [], ◌∷◌, ◌++◌, ℕ, ◌+◌, ◌-◌, Bool, true, false, ◌≡◌, ◌&&◌, ◌||◌, not, map, lit,
  contains, replace_all, if◌then◌else◌, ◌==◌, comparable_text, arith, nat_beq, leb, lookup, insert,
  Option, none, some, any,
}
use gigmcp.Proxy.{Credential}

-- validHeaderFieldByte of net/textproto: the bytes of an HTTP token.
unfoldable pub is_token : ℕ → Bool
unfolding any
is_token c =
    (leb b'a' c && leb c b'z')
    || (leb b'A' c && leb c b'Z')
    || (leb b'0' c && leb c b'9')
    || any (λ d. nat_beq d c) (lit "!#$%&'*+-.^_`|~")

unfoldable pub upper_case : ℕ → ℕ
upper_case c = if leb b'a' c && leb c b'z' then c - 32 else c

unfoldable pub lower_case : ℕ → ℕ
lower_case c = if leb b'A' c && leb c b'Z' then c + 32 else c

unfoldable pub title : Bool → Text → Text
title upper [] = []
title upper (c ∷ s) = (if upper then upper_case c else lower_case c) ∷ title (nat_beq c b'-') s

-- http.CanonicalHeaderKey: a key with a byte that is no token byte stays as it is.
unfoldable pub canonical : Text → Text
unfolding is_token upper_case lower_case title any
canonical key = if any (λ c. not (is_token c)) key then key else title true key

abbrev pub Header : Type 0
Header = List (Text × List Text)

unfoldable pub first_value : Option (List Text) → Text
first_value none = []
first_value (some []) = []
first_value (some (v ∷ vs)) = v

-- Header.Get
unfoldable pub get : Text → Header → Text
unfolding first_value
get key h = first_value (lookup (canonical key) h)

-- Header.Set
unfoldable pub set : Text → Text → Header → Header
set key value h = insert (canonical key) (value ∷ []) h

pub record Request : Type 0 where
  pub method : Text
  pub header : Header
  pub close : Bool

-- The value is dictated by the trusted format.
unfoldable pub injected : Credential → Text
injected cred =
    if not (cred.inject_format == [])
    then replace_all cred.inject_format (lit "{token}") cred.real_secret
    else cred.real_secret

-- Whether the sandbox put the placeholder into the configured header.
unfoldable pub asks : Credential → Header → Bool
asks cred h =
    not (cred.inject_header == [])
    && not (cred.placeholder == [])
    && contains (get cred.inject_header h) cred.placeholder

unfoldable pub inject : Credential → Header → Header
unfolding asks
inject cred h = if asks cred h then set cred.inject_header (injected cred) h else h

-- One round of the loop, as the two peers answer it: `none` for a failed read or write.
pub record Round : Type 0 where
  pub request : Option Request
  pub written : Bool
  pub response_close : Option Bool
  pub returned : Bool

-- What the loop hands on after a request was read.
answer : Round → Request → List Request → List Request
answer r req rest =
    if r.written
    then elim r.response_close [
      | none ↦ req ∷ []
      | some close ↦
          if r.returned then if req.close || close then req ∷ [] else req ∷ rest else req ∷ []
    ]
    else req ∷ []

forward : Credential → Request → Request
unfolding inject
forward cred req = record req { header = inject cred req.header }

-- The requests that the upstream is sent, in order. The last one may have failed in writing.
unfoldable pub pump : Credential → List Round → List Request
unfolding answer forward
pump cred [] = []
pump cred (r ∷ rs) = elim r.request [
  | none ↦ []
  | some req ↦ answer r (forward cred req) (pump cred rs)
]
