-- ===== src/Api/AuditLog/Pages.antt =====
-- A page of the audit log shows whom it may, is bounded, and continues the page before it.
use gigmcp.Base.{
  Text, List, [], ◌∷◌, ◌++◌, ℕ, zero, suc, ◌≤◌, ◌<◌, ℤ, pos, negsuc, true, false, ◌&&◌, ◌==◌,
  comparable_text, comparable_int, ltb, length, take, drop, if◌then◌else◌, Option, none, some, lit,
  All, All-at, ◌≡◌, ◌≢◌, inl, inr, refl, ap, ◌∙◌, sym, subst, arith, text_beq_iff, int_beq_iff,
  Bool-cases, Option-cases, where_,
}
use gigmcp.Store.Types.{Db, AuditEvent}
use gigmcp.Store.Audit.{clamp, is_before, is_of, matching, list_audit, IsLog}
use gigmcp.Store.Audit.Paging.{matching-after, All-matching}
use gigmcp.Auth.Session.{Context}
use gigmcp.Api.Types.{Control, Env, wrote}
use gigmcp.Api.AuditLog.{
  AuditPage, number, page_limit, user_filter, last_id, page_of, handle_list_audit,
}

take-drop {ℓ} : {A : Type ℓ} (n : ℕ) (l : List A) → take n l ++ drop n l ≡ l
take-drop zero l = refl
take-drop (suc n) [] = refl
take-drop (suc n) (x ∷ l) = λ i. x ∷ take-drop n l i

length-take {ℓ} : {A : Type ℓ} (n : ℕ) (l : List A) → length (take n l) ≤ n
length-take zero l = omega arith
length-take (suc n) [] = omega arith
length-take (suc n) (x ∷ l) = omega (arith, length-take n l)

-- A page that is not full was the last.
drop-short {ℓ} : {A : Type ℓ} (n : ℕ) (l : List A) → length (take n l) < n → drop n l ≡ []
drop-short zero l h = absurd (omega arith)
drop-short (suc n) [] h = refl
drop-short (suc n) (x ∷ l) h = drop-short n l (omega arith)

All-take {ℓ κ} : {A : Type ℓ} (P : A → Type κ) (n : ℕ) (l : List A) → All P l → All P (take n l)
All-take P zero l h = tt
All-take P (suc n) [] h = tt
All-take P (suc n) (x ∷ l) h = (h.0, All-take P n l h.1)

page_limit_bounds :
    (n : ℤ)
    → (0 < page_limit n) × (page_limit n ≤ 200) × (clamp (pos (page_limit n)) ≡ page_limit n)
unfolding page_limit clamp
page_limit_bounds (negsuc n) = (omega arith, omega arith, refl)
page_limit_bounds (pos zero) = (omega arith, omega arith, refl)
page_limit_bounds (pos (suc n)) = elim (Bool-cases (ltb 200 (suc n))) [
  | inl e ↦ rw e (omega arith, omega arith, refl)
  | inr e ↦ rw e (omega arith, ground arith, ground arith)
]

-- The last event of a page that is not empty.
last_of :
    (e : AuditEvent) (events : List AuditEvent) (n : ℕ)
    → (xs : List AuditEvent) × (d : AuditEvent) × (e ∷ events ≡ xs ++ d ∷ [])
      × (last_id n (e ∷ events) ≡ d.id)
unfolding last_id
last_of e [] n = ([], e, refl, refl)
last_of e (f ∷ events) n =
    let (xs, d, split, id) = last_of f events e.id in
    (e ∷ xs, d, ap (λ (l : List AuditEvent). e ∷ l) split, id)

append_one {ℓ} :
    {A : Type ℓ} (xs : List A) (d : A) (ys : List A) → (xs ++ d ∷ []) ++ ys ≡ xs ++ d ∷ ys
append_one [] d ys = refl
append_one (x ∷ xs) d ys = λ i. x ∷ append_one xs d ys i

-- The rows from the place where the next page begins; 0 is no further page.
abbrev pub rest_from : ℕ → ℤ → List AuditEvent → List AuditEvent
rest_from zero user rows = []
rest_from (suc n) user rows = matching (pos (suc n)) user rows

-- The events of the user, if the filter names one.
abbrev pub OnlyOf : ℤ → List AuditEvent → Type 0
OnlyOf user = All (λ (e : AuditEvent). e.user_id ≡ some user)

own_rows :
    (before user : ℤ) (rows : List AuditEvent)
    → user ≢ pos 0
    → OnlyOf user (matching before user rows)
unfolding matching where_
own_rows before user [] some_user = tt
own_rows before user (e ∷ rows) some_user = elim (Bool-cases (is_before before e && is_of user e)) [
  | inr n ↦ rw n (own_rows before user rows some_user)
  | inl y ↦ rw y (of_user e.user_id (ground arith), own_rows before user rows some_user)
]
  where
    of_user :
        (owner : Option ℤ)
        → (if user == pos 0 then true else elim owner [ none ↦ false | some id ↦ id == user ])
          ≡ true
        → owner ≡ some user
    of_user none h = ground (arith, int_beq_iff user (pos 0))
    of_user (some id) h = ground (arith, int_beq_iff user (pos 0), int_beq_iff id user)

rest_from-pos :
    (n : ℕ) (user : ℤ) (rows : List AuditEvent)
    → 0 < n
    → rest_from n user rows ≡ matching (pos n) user rows
rest_from-pos zero user rows h = absurd (omega arith)
rest_from-pos (suc n) user rows h = refl

module _ (before user : ℤ) (n : ℕ) (db : Db) (log : IsLog db) (some_rows : 0 < n) where
  abbrev shown : List AuditEvent
  shown = take n (matching before user db.audit)

  abbrev left : List AuditEvent
  left = drop n (matching before user db.audit)

  full_page :
      (e : AuditEvent) (events : List AuditEvent)
      → shown ≡ e ∷ events
      → matching before user db.audit ≡ shown ++ rest_from (last_id 0 shown) user db.audit
  full_page e events at =
      let (xs, d, split, id) = last_of e events 0 in
      let parts : matching before user db.audit ≡ xs ++ d ∷ left =
        sym (take-drop n (matching before user db.audit))
        ∙ ap (λ (l : List AuditEvent). l ++ left) (at ∙ split)
        ∙ append_one xs d left in
      let low : 0 < d.id =
        (All-at (λ (c : AuditEvent). (0 < c.id) × (c.id ≤ db.audit_seq)) xs left d
          (subst (All (λ (c : AuditEvent). (0 < c.id) × (c.id ≤ db.audit_seq))) parts (
            All-matching (λ (c : AuditEvent). (0 < c.id) × (c.id ≤ db.audit_seq)) before user
              db.audit log.positive))).0 in
      let onward : rest_from (last_id 0 shown) user db.audit ≡ left =
        ap (λ (l : List AuditEvent). rest_from (last_id 0 l) user db.audit) at
        ∙ ap (λ (k : ℕ). rest_from k user db.audit) id
        ∙ rest_from-pos d.id user db.audit low
        ∙ matching-after before user db.audit xs left d log.falling low parts in
      sym (take-drop n (matching before user db.audit))
      ∙ ap (λ (l : List AuditEvent). shown ++ l) (sym onward)

  continued :
      matching before user db.audit
      ≡ (page_of n shown).events ++ rest_from (page_of n shown).next_before user db.audit
  unfolding page_of
  continued = elim (Bool-cases (ltb (length shown) n)) [
    | inl short ↦ rw short (
        sym (take-drop n (matching before user db.audit))
        ∙ ap (λ (l : List AuditEvent). shown ++ l)
            (drop-short n (matching before user db.audit) (ground arith)))
    | inr full ↦ rw full (by_shown shown refl (ground arith))
  ]
    where
      by_shown :
          (l : List AuditEvent)
          → shown ≡ l
          → n ≤ length shown
          → matching before user db.audit ≡ shown ++ rest_from (last_id 0 shown) user db.audit
      by_shown [] at size = absurd (omega (arith, ap (λ (l : List AuditEvent). length l) at))
      by_shown (e ∷ events) at size = full_page e events at

-- What a page of the log shows to the one who asks.
pub record IsPage (ctx : Context) (before asked : Text) (rows : List AuditEvent) (page : AuditPage)
    : Type 0 where
  pub small : length page.events ≤ 200
  pub viewing :
      ctx.impersonating ≡ true
      → ctx.effective_user.id ≢ pos 0
      → OnlyOf ctx.effective_user.id page.events
  pub own :
      ctx.impersonating ≡ false
      → ctx.real_user.role ≢ lit "admin"
      → ctx.real_user.id ≢ pos 0
      → OnlyOf ctx.real_user.id page.events
  pub continued_by :
      matching (number before) (user_filter ctx asked) rows
      ≡ page.events ++ rest_from page.next_before (user_filter ctx asked) rows

-- Where the ids of the log fall and are positive, a page has at most 200 events; for one who views
-- another user all are of that user, and for one who is no administrator all are their own, if
-- these users have an id; and the events that the filter selects are those of the page, followed by
-- those that the next page is asked for by the id that the reply names, of which there are none if
-- it names 0.
pub handle_list_audit-IsPage :
    (env : Env) (ctx : Context) (before limit asked : Text) (s : Control) (status : ℕ)
    (page : AuditPage)
    → IsLog s.db
    → handle_list_audit env ctx before limit asked s ≡ wrote status page
    → IsPage ctx before asked s.db.audit page
unfolding handle_list_audit list_audit
handle_list_audit-IsPage env ctx before limit asked s status page log h =
    elim (Option-cases env.load_fault) [
      | inr (e, bad) ↦ ground (arith, bad)
      | inl fine ↦
          let size = page_limit (number limit) in
          let (positive, most, kept) = page_limit_bounds (number limit) in
          let user = user_filter ctx asked in
          let selected = matching (number before) user s.db.audit in
          let same : page_of size (take size selected) ≡ page =
            ap (λ (k : ℕ). page_of size (take k selected)) (sym kept) ∙ ground (arith, fine) in
          subst (λ (p : AuditPage). IsPage ctx before asked s.db.audit p) same
            (record {
              small = small_page size selected most;
              viewing = λ on known. unfold page_of in shown_of (viewed_filter on) known size;
              own = λ off plain known. unfold page_of in shown_of (own_filter off plain) known size;
              continued_by = continued (number before) user size s.db log positive;
            })
    ]
  where
    small_page :
        (n : ℕ) (l : List AuditEvent) → n ≤ 200 → length (page_of n (take n l)).events ≤ 200
    small_page n l most = unfold page_of in omega (arith, length-take n l)

    viewed_filter : ctx.impersonating ≡ true → user_filter ctx asked ≡ ctx.effective_user.id
    viewed_filter on = unfold user_filter in ground (arith, on)

    own_filter :
        ctx.impersonating ≡ false
        → ctx.real_user.role ≢ lit "admin"
        → user_filter ctx asked ≡ ctx.real_user.id
    own_filter off plain =
        unfold user_filter in ground (arith, off, text_beq_iff ctx.real_user.role (lit "admin"))

    shown_of :
        {user : ℤ}
        → user_filter ctx asked ≡ user
        → user ≢ pos 0
        → (n : ℕ)
        → OnlyOf user (take n (matching (number before) (user_filter ctx asked) s.db.audit))
    shown_of {user} same known n =
        subst (λ (u : ℤ). OnlyOf user (take n (matching (number before) u s.db.audit))) (sym same)
          (All-take (λ (e : AuditEvent). e.user_id ≡ some user) n
            (matching (number before) user s.db.audit)
            (own_rows (number before) user s.db.audit known))
