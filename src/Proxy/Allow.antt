-- ===== src/Proxy/Allow.antt =====
-- internal/proxy/proxy.go: HostAllowed, the egress allowlist.
use gigmcp.Base.{
  Text, List, [], ◌∷◌, ◌++◌, ℕ, ◌-◌, Bool, true, false, ◌≡◌, ◌≢◌, ◌↔◌, ◌&&◌, not, ap, ◌∙◌, map, lit,
  length, take, drop, has_prefix, has_prefix_iff, has_suffix, has_suffix-split, has_suffix-append,
  contains, if◌then◌else◌, ◌==◌, comparable_text, text_beq_iff, arith, Has, here, there,
  comparable_nat, Bool-cases, inl, inr,
}

-- unicode.ToLower, and the representative of a rune's orbit under unicode.SimpleFold, of package
-- unicode's tables. The full stop is its own lower case, and no other rune's.
pub record CaseTable : Type 0 where
  pub to_lower : ℕ → ℕ
  pub fold : ℕ → ℕ
  pub lower_dot : to_lower b'.' ≡ b'.'
  pub dot_of_lower : (c : ℕ) → to_lower c ≡ b'.' → c ≡ b'.'

module _ ⦃t : CaseTable⦄ where
  -- strings.ToLower
  unfoldable pub to_lower : Text → Text
  to_lower = map t.to_lower

  -- strings.EqualFold
  unfoldable pub equal_fold : Text → Text → Bool
  equal_fold a b = map t.fold a == map t.fold b

  -- The loop's body from `if strings.HasPrefix(h, "*.")` on.
  unfoldable pub wildcard_allows : Text → Text → Bool
  unfolding to_lower
  wildcard_allows host h =
      let host_lower = to_lower host in
      let suffix = to_lower (drop 1 h) in
      let label = take (length host_lower - length suffix) host_lower in
      if has_prefix h (lit "*.")
      then if has_suffix host_lower suffix
        then not (label == []) && not (contains label (lit "."))
        else false
      else false

  unfoldable pub host_allowed : Text → List Text → Bool
  unfolding equal_fold wildcard_allows
  host_allowed host [] = false
  host_allowed host (h ∷ rest) =
      if equal_fold host h
      then true
      else if wildcard_allows host h
      then true
      else host_allowed host rest

  -- What an entry of the list permits, with no reference to positions in a string: the same name
  -- whatever its case, or `*.` and a name that the host extends by one label.
  pub data Permits (host : Text) (h : Text) : Type 0 where
    exact : map t.fold host ≡ map t.fold h → Permits host h
    wildcard :
        (label rest : Text)
        → h ≡ b'*' ∷ b'.' ∷ rest
        → label ≢ []
        → contains label (lit ".") ≡ false
        → map t.to_lower host ≡ label ++ b'.' ∷ map t.to_lower rest
        → Permits host h

  lower-dot_cons : (rest : Text) → map t.to_lower (b'.' ∷ rest) ≡ b'.' ∷ map t.to_lower rest
  lower-dot_cons rest = ap (λ (c : ℕ). c ∷ map t.to_lower rest) t.lower_dot

  -- What stands before the entry's suffix in the host.
  abbrev label_of : Text → Text → Text
  label_of host suffix = take (length (to_lower host) - length suffix) (to_lower host)

  wildcard_facts :
      (host h : Text)
      → wildcard_allows host h ≡ true
      → (has_prefix h (lit "*.") ≡ true)
        × (has_suffix (to_lower host) (to_lower (drop 1 h)) ≡ true)
        × (label_of host (to_lower (drop 1 h)) ≢ [])
        × (contains (label_of host (to_lower (drop 1 h))) (lit ".") ≡ false)
  unfolding wildcard_allows
  wildcard_facts host h e = ground (arith, text_beq_iff (label_of host (to_lower (drop 1 h))) [])

  wildcard_allows_sound : (host h : Text) → wildcard_allows host h ≡ true → Permits host h
  unfolding to_lower
  wildcard_allows_sound host h e =
      let (prefix, suffix, ne, nodot) = wildcard_facts host h e in
      let (rest, shape) = (has_prefix_iff h (lit "*.")).0 prefix in
      wildcard (label_of host (to_lower (drop 1 h))) rest shape ne nodot (
        has_suffix-split (to_lower host) (to_lower (drop 1 h)) suffix
        ∙ ap (λ (x : Text). label_of host (to_lower (drop 1 h)) ++ x)
            (ap (λ (x : Text). to_lower (drop 1 x)) shape ∙ lower-dot_cons rest))

  wildcard_allows_complete :
      (host label rest : Text)
      → label ≢ []
      → contains label (lit ".") ≡ false
      → map t.to_lower host ≡ label ++ b'.' ∷ map t.to_lower rest
      → wildcard_allows host (b'*' ∷ b'.' ∷ rest) ≡ true
  unfolding wildcard_allows has_prefix
  wildcard_allows_complete host label rest ne nodot e =
      let suffix : Text = b'.' ∷ map t.to_lower rest in
      let (ends, cut) = has_suffix-append label suffix in
      rw (lower-dot_cons rest, e, ends, cut) (ground (arith, text_beq_iff label []))

  equal_fold_iff : (a b : Text) → (equal_fold a b ≡ true) ↔ (map t.fold a ≡ map t.fold b)
  unfolding equal_fold
  equal_fold_iff a b = text_beq_iff (map t.fold a) (map t.fold b)

  host_allowed_sound :
      (host : Text) (list : List Text) → host_allowed host list ≡ true → Has (Permits host) list
  unfolding host_allowed
  host_allowed_sound host [] e = cc
  host_allowed_sound host (h ∷ rest) e = elim (Bool-cases (equal_fold host h)) [
    | inl same ↦ here (exact ((equal_fold_iff host h).0 same))
    | inr other ↦ elim (Bool-cases (wildcard_allows host h)) [
      | inl wild ↦ here (wildcard_allows_sound host h wild)
      | inr no_wild ↦ there (host_allowed_sound host rest (ground arith))
    ]
  ]

  Permits-host_allowed :
      (host h : Text) (rest : List Text) → Permits host h → host_allowed host (h ∷ rest) ≡ true
  unfolding host_allowed
  Permits-host_allowed host h rest (exact e) = ground (arith, equal_fold_iff host h)
  Permits-host_allowed host h rest (wildcard label tail shape ne nodot e) =
      rw shape (ground (arith, wildcard_allows_complete host label tail ne nodot e))

  later-allowed :
      (host h : Text) (rest : List Text)
      → host_allowed host rest ≡ true
      → host_allowed host (h ∷ rest) ≡ true
  unfolding host_allowed
  later-allowed host h rest e = ground arith

  host_allowed_complete :
      (host : Text) (list : List Text) → Has (Permits host) list → host_allowed host list ≡ true
  host_allowed_complete host [] q = elim q [ ]
  host_allowed_complete host (h ∷ rest) (here p) = Permits-host_allowed host h rest p
  host_allowed_complete host (h ∷ rest) (there q) =
      later-allowed host h rest (host_allowed_complete host rest q)

  -- A host is allowed exactly when some entry of the list permits it.
  pub host_allowed_iff :
      (host : Text) (list : List Text) → (host_allowed host list ≡ true) ↔ Has (Permits host) list
  host_allowed_iff host list = (host_allowed_sound host list, host_allowed_complete host list)
