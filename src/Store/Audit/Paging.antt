-- ===== src/Store/Audit/Paging.antt =====
-- A page continues where the one before it ended.
use gigmcp.Base.{
  List, [], ◌∷◌, ◌++◌, ℕ, ◌<◌, ◌≤◌, ℤ, pos, negsuc, zero, suc, true, false, ◌&&◌, ◌≡◌, ◌≢◌, refl,
  sym, ap, subst, ◌∙◌, ltb, where_, take, All, All-map, All-at, arith, Bool-cases, inl, inr,
}
use gigmcp.Store.Types.{Db, AuditEvent}
use gigmcp.Store.Audit.{
  append_audit, clamp, is_before, is_of, matching, list_audit, IsFalling, IsLog,
}

-- Appending keeps the keys as AUTOINCREMENT gives them out.
append_audit-IsLog : (now : ℕ) (e : AuditEvent) (db : Db) → IsLog db → IsLog (append_audit now e db)
unfolding append_audit
append_audit-IsLog now e db h = record {
  falling = (All-map _ _ db.audit (λ d (low, high). omega arith) h.positive, h.falling);
  positive = (
    (omega arith, omega arith),
    All-map _ _ db.audit (λ d (low, high). (low, omega arith)) h.positive,
  );
}

-- A bound that no row reaches selects as no bound does.
matching-above :
    (k : ℕ) (user before : ℤ) (rows : List AuditEvent)
    → 0 < k
    → All (λ (d : AuditEvent). d.id < k) rows
    → All (λ (d : AuditEvent). is_before before d ≡ true) rows
    → matching (pos k) user rows ≡ matching before user rows
unfolding matching where_
matching-above zero user before rows low h g = ground arith
matching-above (suc k) user before [] low h g = refl
matching-above (suc k) user before (d ∷ rows) low h g =
    ground (arith, h.0, g.0, matching-above (suc k) user before rows low h.1 g.1)

is_before-below :
    (before : ℤ) (d e : AuditEvent)
    → d.id < e.id
    → is_before before e ≡ true
    → is_before before d ≡ true
is_before-below (negsuc n) d e lt h = refl
is_before-below (pos zero) d e lt h = refl
is_before-below (pos (suc n)) d e lt h = ground arith

pub All-matching :
    (P : AuditEvent → Type 0) (before user : ℤ) (rows : List AuditEvent)
    → All P rows
    → All P (matching before user rows)
unfolding matching where_
All-matching P before user [] h = tt
All-matching P before user (d ∷ rows) h = elim (Bool-cases (is_before before d && is_of user d)) [
  | inl e ↦ rw e (h.0, All-matching P before user rows h.1)
  | inr e ↦ rw e (All-matching P before user rows h.1)
]

is_before-pos : (k : ℕ) (d : AuditEvent) → 0 < k → is_before (pos k) d ≡ ltb d.id k
is_before-pos zero d low = ground arith
is_before-pos (suc k) d low = refl

tail_of : {d x : AuditEvent} {l m : List AuditEvent} → d ∷ l ≡ x ∷ m → (d ≡ x) × (l ≡ m)
tail_of e = (cc, cc)

module _ (before user : ℤ) where
  -- A row that is selected has a smaller id than any before it.
  selected_below :
      (d e : AuditEvent) (rows xs ys : List AuditEvent)
      → All (λ (c : AuditEvent). c.id < d.id) rows
      → matching before user rows ≡ xs ++ e ∷ ys
      → e.id < d.id
  selected_below d e rows xs ys h at =
      All-at (λ (c : AuditEvent). c.id < d.id) xs ys e
        (subst (All (λ (c : AuditEvent). c.id < d.id)) at
          (All-matching (λ (c : AuditEvent). c.id < d.id) before user rows h))

  skip_row :
      (d e : AuditEvent) (rows : List AuditEvent)
      → 0 < e.id
      → e.id ≤ d.id
      → matching (pos e.id) user (d ∷ rows) ≡ matching (pos e.id) user rows
  unfolding matching where_
  skip_row d e rows low above = ground (arith, is_before-pos e.id d low)

  matching-miss :
      (d : AuditEvent) (rows : List AuditEvent)
      → (is_before before d && is_of user d) ≡ false
      → matching before user rows ≡ matching before user (d ∷ rows)
  unfolding matching where_
  matching-miss d rows miss = rw miss refl

  matching-hit :
      (d : AuditEvent) (rows : List AuditEvent)
      → (is_before before d && is_of user d) ≡ true
      → d ∷ matching before user rows ≡ matching before user (d ∷ rows)
  unfolding matching where_
  matching-hit d rows hit = rw hit refl

  -- The rows after the first one selected.
  after_first :
      (d : AuditEvent) (rows : List AuditEvent)
      → 0 < d.id
      → All (λ (c : AuditEvent). c.id < d.id) rows
      → is_before before d ≡ true
      → matching (pos d.id) user (d ∷ rows) ≡ matching before user rows
  after_first d rows low h in_ =
      skip_row d d rows low (omega arith)
      ∙ matching-above d.id user before rows low h
          (All-map _ _ rows (λ c lt. is_before-below before c d lt in_) h)

  not_selected :
      (xs : List AuditEvent) (e : AuditEvent) (ys : List AuditEvent)
      → matching before user [] ≢ xs ++ e ∷ ys
  unfolding matching where_
  not_selected [] e ys at = ground arith
  not_selected (x ∷ xs) e ys at = ground arith

  pub matching-after :
      (rows xs ys : List AuditEvent) (e : AuditEvent)
      → IsFalling rows
      → 0 < e.id
      → matching before user rows ≡ xs ++ e ∷ ys
      → matching (pos e.id) user rows ≡ ys
  matching-after [] xs ys e h low at = absurd (not_selected xs e ys at)
  matching-after (d ∷ rows) xs ys e h low at =
      elim (Bool-cases (is_before before d && is_of user d)) [
        | inr miss ↦
            let at_rows = matching-miss d rows miss ∙ at in
            skip_row d e rows low (omega (arith, selected_below d e rows xs ys h.0 at_rows))
            ∙ matching-after rows xs ys e h.1 low at_rows
        | inl hit ↦
            after_hit xs hit (matching-hit d rows hit ∙ at)
              (λ zs z. matching-after rows zs ys e h.1 low z)
      ]
    where
      after_hit :
          (xs : List AuditEvent)
          → (is_before before d && is_of user d) ≡ true
          → d ∷ matching before user rows ≡ xs ++ e ∷ ys
          → ((zs : List AuditEvent)
              → matching before user rows ≡ zs ++ e ∷ ys
              → matching (pos e.id) user rows ≡ ys)
          → matching (pos e.id) user (d ∷ rows) ≡ ys
      after_hit [] hit at later =
          let (same, rest) = tail_of at in
          subst (λ (c : AuditEvent). matching (pos c.id) user (d ∷ rows) ≡ ys) same
            (after_first d rows (subst (λ (c : AuditEvent). 0 < c.id) (sym same) low) h.0
                (ground arith)
              ∙ rest)
      after_hit (x ∷ xs) hit at later =
          let at_rows = (tail_of at).1 in
          skip_row d e rows low (omega (arith, selected_below d e rows xs ys h.0 at_rows))
          ∙ later xs at_rows

-- In a table whose ids fall and are positive, as appending keeps them: when the events that a reader
-- may see are `xs`, then `e`, then `ys`, newest first, asking for what comes before the id of `e`
-- gives as many of `ys` as the limit allows. So no event is left out or shown twice from page to
-- page.
pub list_audit-page :
    (before limit user : ℤ) (db : Db) (xs ys : List AuditEvent) (e : AuditEvent)
    → IsLog db
    → matching before user db.audit ≡ xs ++ e ∷ ys
    → (list_audit (pos e.id) limit user db ≡ take (clamp limit) ys)
      × ((now : ℕ) (next : AuditEvent) → IsLog (append_audit now next db))
unfolding list_audit
list_audit-page before limit user db xs ys e h at = (
  ap (take (clamp limit)) (matching-after before user db.audit xs ys e h.falling (low_at xs at) at),
  λ now next. append_audit-IsLog now next db h,
)
  where
    low_at : (xs : List AuditEvent) → matching before user db.audit ≡ xs ++ e ∷ ys → 0 < e.id
    low_at xs at =
        (All-at (λ (c : AuditEvent). (0 < c.id) × (c.id ≤ db.audit_seq)) xs ys e
          (subst (All (λ (c : AuditEvent). (0 < c.id) × (c.id ≤ db.audit_seq))) at (
            All-matching (λ (c : AuditEvent). (0 < c.id) × (c.id ≤ db.audit_seq)) before user
              db.audit h.positive))).0
