-- ===== src/Api/Catalog/Current.antt =====
-- The catalog that is served is at most five minutes old.
use gigmcp.Base.{
  List, [], ◌∷◌, ℕ, ◌+◌, ◌<◌, true, none, some, Result, Result-cases, ok, err, ◌≡◌, ◌⊎◌, inl, inr,
  refl, subst, arith, Bool-cases, Option-cases,
}
use gigmcp.Store.Types.{Error}
use gigmcp.Api.Catalog.{Index, IndexCache, registry_cache_ttl, is_current, memoized, cached_index}

-- A request, by the time it looks and the time by which a fetch would have answered.
pub record Visit : Type 0 where
  pub now : ℕ
  pub done : ℕ
  pub fetch : Result Error Index

abbrev pub no_cache : IndexCache
no_cache = record { index = none; fetched_at = 0 }

-- The cache after requests, the newest first.
unfoldable pub visited : List Visit → IndexCache
unfolding cached_index
visited [] = no_cache
visited (v ∷ earlier) = (cached_index v.now v.done v.fetch (visited earlier)).1

-- One of the requests fetched the index, less than the time to live ago.
abbrev pub Answered : List Visit → Index → ℕ → Type 0
Answered [] ix now = ⊥
Answered (v ∷ earlier) ix now =
    ((v.fetch ≡ ok ix) × (now < v.done + registry_cache_ttl)) ⊎ Answered earlier ix now

-- What a request makes of the cache.
step_of :
    (now done : ℕ) (fetch : Result Error Index) (c : IndexCache)
    → ((cached_index now done fetch c).1 ≡ c)
      ⊎ ((ix : Index) × (fetch ≡ ok ix)
          × ((cached_index now done fetch c).1 ≡ record { index = some ix; fetched_at = done }))
unfolding cached_index
step_of now done fetch c = elim (Option-cases c.index) [
  | inl e ↦ elim (Result-cases fetch) [
    | inl (ix, f) ↦ inr (ix, f, ground (arith, e, f))
    | inr (x, f) ↦ inl (ground (arith, e, f))
  ]
  | inr (old, e) ↦ elim (Bool-cases (is_current now c)) [
    | inl k ↦ inl (ground (arith, e, k))
    | inr k ↦ elim (Result-cases fetch) [
      | inl (ix, f) ↦ inr (ix, f, ground (arith, e, f, k))
      | inr (x, f) ↦ inl (ground (arith, e, f, k))
    ]
  ]
]

memo-Answered :
    (visits : List Visit) (ix : Index) (now : ℕ)
    → (visited visits).index ≡ some ix
    → now < (visited visits).fetched_at + registry_cache_ttl
    → Answered visits ix now
unfolding visited
memo-Answered [] ix now h l = ground arith
memo-Answered (v ∷ earlier) ix now h l = elim (step_of v.now v.done v.fetch (visited earlier)) [
  | inl same ↦ inr (memo-Answered earlier ix now (ground (arith, same)) (ground (arith, same)))
  | inr (new, f, made) ↦ inl (ground (arith, f, made), ground (arith, made))
]

current_of :
    (now : ℕ) (c : IndexCache) → is_current now c ≡ true → now < c.fetched_at + registry_cache_ttl
unfolding is_current
current_of now c h = ground arith

abbrev pub Answer : Type 0
Answer = Result Error Index × IndexCache

-- What may be served after requests, and what is left then.
abbrev pub Served : List Visit → ℕ → Result Error Index → Answer → Type 0
Served visits now fetch (ok ix, after) = (fetch ≡ ok ix) ⊎ Answered visits ix now
Served visits now fetch (err e, after) = (fetch ≡ err e) × (after ≡ visited visits)

memoized-Served :
    (visits : List Visit) (now done : ℕ) (fetch : Result Error Index)
    → Served visits now fetch (memoized done fetch (visited visits))
memoized-Served visits now done (ok ix) = inl refl
memoized-Served visits now done (err e) = (refl, refl)

-- Whatever requests came before, an index that is served was fetched by this request, or by one of
-- them less than five minutes ago; and a request that is answered by an error fetched in vain and
-- left the cache as it was.
pub cached_index-Served :
    (visits : List Visit) (now done : ℕ) (fetch : Result Error Index)
    → Served visits now fetch (cached_index now done fetch (visited visits))
unfolding cached_index
cached_index-Served visits now done fetch = elim (Option-cases (visited visits).index) [
  | inl e ↦
      subst (λ (r : Answer). Served visits now fetch r) (ground (arith, e))
        (memoized-Served visits now done fetch)
  | inr (ix, e) ↦ elim (Bool-cases (is_current now (visited visits))) [
    | inl k ↦
        let kept : (ok ix, visited visits) ≡ cached_index now done fetch (visited visits) =
          ground (arith, e, k) in
        subst (λ (r : Answer). Served visits now fetch r) kept
          (fresh ix e (current_of now (visited visits) k))
    | inr k ↦
        subst (λ (r : Answer). Served visits now fetch r) (ground (arith, e, k))
          (memoized-Served visits now done fetch)
  ]
]
  where
    fresh :
        (ix : Index)
        → (visited visits).index ≡ some ix
        → now < (visited visits).fetched_at + registry_cache_ttl
        → Served visits now fetch (ok ix, visited visits)
    fresh ix e l = inr (memo-Answered visits ix now e l)
