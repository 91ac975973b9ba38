-- ===== src/Proxy/Limiter.antt =====
-- internal/proxy/proxy.go: connLimiter, which caps the live CONNECT tunnels of one identity.
use gigmcp.Base.{
  List, [], ℕ, ◌+◌, ◌-◌, ◌≤◌, ◌<◌, Option, none, some, Bool, true, false, ◌≡◌, ◌≢◌, ◌↔◌, refl,
  lookup, insert, delete, lookup-insert, lookup-delete, if◌then◌else◌, ◌==◌, leb, arith,
}
use gigmcp.Proxy.{Identity, comparable_identity, identity_beq_iff}

pub record ConnLimiter : Type 0 where
  pub count : List (Identity × ℕ)
  pub max : ℕ

unfoldable pub new_conn_limiter : ℕ → ConnLimiter
new_conn_limiter max = record { count = []; max = max }

-- A read of an absent key gives 0.
abbrev or_zero : Option ℕ → ℕ
or_zero none = 0
or_zero (some n) = n

unfoldable pub count_of : ConnLimiter → Identity → ℕ
count_of l id = or_zero (lookup id l.count)

unfoldable pub acquire : Identity → ConnLimiter → ConnLimiter × Bool
unfolding count_of
acquire id l =
    if leb l.max (count_of l id)
    then (l, false)
    else (record l { count = insert id (count_of l id + 1) l.count }, true)

unfoldable pub release : Identity → ConnLimiter → ConnLimiter
unfolding count_of
release id l =
    if leb (count_of l id) 1
    then record l { count = delete id l.count }
    else record l { count = insert id (count_of l id - 1) l.count }

-- The tunnels that are live, counted independently of the limiter.
abbrev pub Live : Type 0
Live = Identity → ℕ

abbrev pub opened : Identity → Live → Live
opened id live j = if id == j then live j + 1 else live j

abbrev pub closed : Identity → Live → Live
closed id live j = if id == j then live j - 1 else live j

pub record System : Type 0 where
  pub limiter : ConnLimiter
  pub live : Live

abbrev pub connected : Identity → System → System
connected id s = record {
  limiter = (acquire id s.limiter).0;
  live = if (acquire id s.limiter).1 then opened id s.live else s.live;
}

abbrev pub ended : Identity → System → System
ended id s = record { limiter = release id s.limiter; live = closed id s.live }

-- What the handlers of all connections do, in any interleaving: a CONNECT that is granted opens a
-- tunnel, one that is refused opens none, and a live tunnel ends.
pub data Step (s : System) : System → Type 0 where
  connects : (id : Identity) → Step s (connected id s)
  ends : (id : Identity) → 0 < s.live id → Step s (ended id s)

pub data Reach (s : System) : System → Type 0 where
  start : Reach s s
  next : {t u : System} → Reach s t → Step t u → Reach s u

abbrev pub idle : ℕ → System
idle max = record { limiter = new_conn_limiter max; live = λ _. 0 }

pub record IsCounted (max : ℕ) (s : System) : Type 0 where
  pub same_max : s.limiter.max ≡ max
  pub exact : (id : Identity) → count_of s.limiter id ≡ s.live id
  pub capped : (id : Identity) → s.live id ≤ max
  -- the map holds no key without a live tunnel, so it cannot grow without bound
  pub pruned : (id : Identity) → lookup id s.limiter.count ≢ some 0

module _ {max : ℕ} where
  connects-IsCounted :
      (id : Identity) (s : System) → IsCounted max s → IsCounted max (connected id s)
  unfolding acquire
  connects-IsCounted id s h = record {
    same_max = ground (arith, h.same_max);
    exact = λ j. ground (
      arith,
      h.exact id,
      h.exact j,
      identity_beq_iff id j,
      lookup-insert id j (count_of s.limiter id + 1) s.limiter.count,
    );
    capped =
        λ j. ground (arith, h.exact id, h.capped id, h.capped j, h.same_max, identity_beq_iff id j);
    pruned = λ j. ground (
      arith,
      h.pruned j,
      identity_beq_iff id j,
      lookup-insert id j (count_of s.limiter id + 1) s.limiter.count,
    );
  }

  ends-IsCounted :
      (id : Identity) (s : System) → 0 < s.live id → IsCounted max s → IsCounted max (ended id s)
  unfolding release
  ends-IsCounted id s live h = record {
    same_max = ground (arith, h.same_max);
    exact = λ j. ground (
      arith,
      h.exact id,
      h.exact j,
      identity_beq_iff id j,
      lookup-insert id j (count_of s.limiter id - 1) s.limiter.count,
      lookup-delete id j s.limiter.count,
    );
    capped = λ j. ground (arith, h.capped j, identity_beq_iff id j);
    pruned = λ j. ground (
      arith,
      h.pruned j,
      h.exact id,
      identity_beq_iff id j,
      lookup-insert id j (count_of s.limiter id - 1) s.limiter.count,
      lookup-delete id j s.limiter.count,
    );
  }

  Step-IsCounted : {s t : System} → Step s t → IsCounted max s → IsCounted max t
  Step-IsCounted {s} (connects id) h = connects-IsCounted id s h
  Step-IsCounted {s} (ends id live) h = ends-IsCounted id s live h

idle-IsCounted : (max : ℕ) → IsCounted max (idle max)
unfolding new_conn_limiter count_of lookup
idle-IsCounted max = record {
  same_max = refl;
  exact = λ _. refl;
  capped = λ _. omega arith;
  pruned = λ _. ground arith;
}

-- In every state that connects and ends can lead to, the limiter's count of a tenant is the number
-- of its live tunnels, which is at most `max`, and no key is kept for a tenant without one.
pub Reach-idle-IsCounted : (max : ℕ) {s : System} → Reach (idle max) s → IsCounted max s
Reach-idle-IsCounted max start = idle-IsCounted max
Reach-idle-IsCounted max (next r st) = Step-IsCounted st (Reach-idle-IsCounted max r)

-- In such a state a CONNECT is refused exactly when the tenant holds `max` live tunnels.
pub acquire_refuses_iff :
    (max : ℕ) (s : System) (id : Identity)
    → Reach (idle max) s
    → ((acquire id s.limiter).1 ≡ false) ↔ (s.live id ≡ max)
unfolding acquire
acquire_refuses_iff max s id r =
    let h = Reach-idle-IsCounted max r in ground (arith, h.exact id, h.capped id, h.same_max)

-- A refusal changes nothing, and a release right after a grant gives every count back.
pub acquire_refused :
    (id : Identity) (l : ConnLimiter) → (acquire id l).1 ≡ false → (acquire id l).0 ≡ l
unfolding acquire
acquire_refused id l h = ground arith

count_of-acquire :
    (id j : Identity) (l : ConnLimiter)
    → (acquire id l).1 ≡ true
    → count_of (acquire id l).0 j ≡ (if id == j then count_of l id + 1 else count_of l j)
unfolding acquire
count_of-acquire id j l h = ground (arith, lookup-insert id j (count_of l id + 1) l.count)

count_of-release :
    (id j : Identity) (l : ConnLimiter)
    → count_of (release id l) j ≡ (if id == j then count_of l id - 1 else count_of l j)
unfolding release
count_of-release id j l =
    ground (arith, lookup-insert id j (count_of l id - 1) l.count, lookup-delete id j l.count)

pub count_of-release-acquire :
    (id j : Identity) (l : ConnLimiter)
    → (acquire id l).1 ≡ true
    → count_of (release id (acquire id l).0) j ≡ count_of l j
count_of-release-acquire id j l h = ground (
  arith,
  count_of-release id j (acquire id l).0,
  count_of-acquire id j l h,
  count_of-acquire id id l h,
  identity_beq_iff id j,
  identity_beq_iff id id,
)
