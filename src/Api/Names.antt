-- ===== src/Api/Names.antt =====
-- The names that the control plane accepts: slugs, server and vendor names, hosts, display names.
use gigmcp.Base.{
  Text, [], ◌∷◌, ℕ, ◌+◌, Bool, true, false, not, ◌&&◌, ◌||◌, ◌==◌, comparable_text, nat_beq, leb,
  ltb, length, if◌then◌else◌, drop, has_prefix, lit, Option, none, some,
}
use gigmcp.Auth.Scopes.{is_space}

abbrev pub is_alnum : ℕ → Bool
is_alnum c = (leb b'a' c && leb c b'z') || (leb b'0' c && leb c b'9')

unfoldable pub all_of : (ℕ → Bool) → Text → Bool
all_of p [] = true
all_of p (c ∷ s) = p c && all_of p s

-- slugRe: ^[a-z0-9][a-z0-9-]{1,62}$
unfoldable pub is_slug : Text → Bool
unfolding all_of
is_slug [] = false
is_slug (c ∷ s) =
    is_alnum c
    && all_of (λ d. is_alnum d || nat_beq d b'-') s
    && leb 1 (length s)
    && leb (length s) 62

-- serverNameRe, vendorRe, connVendorRe, connServerRe: ^[a-z0-9][a-z0-9_-]{0,63}$
unfoldable pub is_server_name : Text → Bool
unfolding all_of
is_server_name [] = false
is_server_name (c ∷ s) =
    is_alnum c
    && all_of (λ d. is_alnum d || nat_beq d b'-' || nat_beq d b'_') s
    && leb (length s) 63

-- injectHeaderRe: ^[A-Za-z0-9-]+$
unfoldable pub is_header_name : Text → Bool
unfolding all_of
is_header_name [] = false
is_header_name (c ∷ s) =
    all_of (λ d. is_alnum d || (leb b'A' d && leb d b'Z') || nat_beq d b'-') (c ∷ s)

-- What may follow in a host: the start of a label, what stands behind a letter or digit, and what
-- stands behind a hyphen.
pub data Place : Type 0 where
  start letter hyphen : Place

unfoldable pub next : Place → ℕ → Option Place
next start c = if is_alnum c then some letter else none
next letter c =
    if is_alnum c
    then some letter
    else if nat_beq c b'-'
    then some hyphen
    else if nat_beq c b'.'
    then some start
    else none
next hyphen c = if is_alnum c then some letter else if nat_beq c b'-' then some hyphen else none

unfoldable pub labels : Place → Text → Bool
unfolding next
labels letter [] = true
labels start [] = false
labels hyphen [] = false
labels at (c ∷ s) = elim (next at c) [ none ↦ false | some then_ ↦ labels then_ s ]

-- allowedHostRe: an optional "*." before labels with dots between them
unfoldable pub is_host : Text → Bool
unfolding labels has_prefix
is_host h = if has_prefix h (lit "*.") then labels start (drop 2 h) else labels start h

abbrev pub is_blank : ℕ → Bool
is_blank c = nat_beq c 0x20 || nat_beq c 0x9 || nat_beq c 0xa || nat_beq c 0xd

-- An entry of allowed_hosts.
unfoldable pub is_host_entry : Text → Bool
unfolding all_of is_host
is_host_entry h =
    not (h == []) && leb (length h) 253 && all_of (λ c. not (is_blank c)) h && is_host h

unfoldable pub trim_left : Text → Text
unfolding is_space
trim_left [] = []
trim_left (c ∷ s) = if is_space c then trim_left s else c ∷ s

unfoldable pub trim_right : Text → Text
unfolding is_space
trim_right [] = []
trim_right (c ∷ s) = let rest = trim_right s in if is_space c && rest == [] then [] else c ∷ rest

-- strings.TrimSpace
unfoldable pub trim_space : Text → Text
unfolding trim_left trim_right
trim_space s = trim_right (trim_left s)

abbrev pub utf8_width : ℕ → ℕ
utf8_width c = if ltb c 0x80 then 1 else if ltb c 0x800 then 2 else if ltb c 0x10000 then 3 else 4

-- len(s), which counts bytes
unfoldable pub byte_length : Text → ℕ
byte_length [] = 0
byte_length (c ∷ s) = utf8_width c + byte_length s

-- A display name after trimming.
unfoldable pub is_display_name : Text → Bool
unfolding byte_length
is_display_name name = leb 1 (byte_length name) && leb (byte_length name) 128
