-- ===== src/Gateway/AuditingResolver/Conservation.antt =====
-- What becomes of the records: each is kept, in order, or lost and counted.
use gigmcp.Base.{
  List, [], ◌∷◌, ◌++◌, ℕ, ◌+◌, ◌≤◌, ◌≡◌, inl, inr, refl, sym, ap, subst, ◌∙◌, Bool, true, false,
  Option, none, some, Result, length, length-append, ltb, ℤ, map, arith, Bool-cases,
}
use gigmcp.Store.Types.{AuditEvent, Profile, Error}
use gigmcp.Gateway.AuditingResolver.{
  AuditRecord, AuditingResolver, new_auditing_resolver, buffer, offer, event_of, receive, write,
  close,
}

-- What happens to the resolver, by any goroutine: an answer is recorded, the writer takes a record,
-- the writer is done with it, the gateway closes.
pub data Action : Type 0 where
  resolved : AuditRecord → Action
  takes : Action
  wrote : Bool → Action
  closes : Action

module _ (get_profile : ℤ → Result Error Profile) where
  unfoldable pub act : Action → AuditingResolver → AuditingResolver
  unfolding offer receive write close
  act (resolved rec) a = offer rec a
  act takes a = receive a
  act (wrote success) a = write get_profile success a
  act closes a = close a

  -- The latest action stands first.
  unfoldable pub run : List Action → AuditingResolver
  unfolding act
  run [] = new_auditing_resolver
  run (x ∷ earlier) = act x (run earlier)

-- The records of the answers, first to last, as rows.
unfoldable pub submitted : (ℤ → Result Error Profile) → List Action → List AuditEvent
submitted g [] = []
submitted g (resolved rec ∷ earlier) = submitted g earlier ++ event_of g rec ∷ []
submitted g (takes ∷ earlier) = submitted g earlier
submitted g (wrote success ∷ earlier) = submitted g earlier
submitted g (closes ∷ earlier) = submitted g earlier

-- The elements that are marked, and how many are not.
abbrev pub pick : {A : Type 0} → List Bool → List A → List A
pick [] ys = []
pick (b ∷ marks) [] = []
pick (true ∷ marks) (y ∷ ys) = y ∷ pick marks ys
pick (false ∷ marks) (y ∷ ys) = pick marks ys

abbrev pub misses : List Bool → ℕ
misses [] = 0
misses (true ∷ marks) = misses marks
misses (false ∷ marks) = misses marks + 1

module _ {A : Type 0} where
  append_assoc : (xs ys zs : List A) → (xs ++ ys) ++ zs ≡ xs ++ (ys ++ zs)
  append_assoc [] ys zs = refl
  append_assoc (x ∷ xs) ys zs = ap (λ l. x ∷ l) (append_assoc xs ys zs)

  tail_of : (x y : A) (xs ys : List A) → x ∷ xs ≡ y ∷ ys → (x ≡ y) × (xs ≡ ys)
  tail_of x y xs ys h = (cc, cc)

  pick-kept :
      (marks : List Bool) (ys : List A) (y : A)
      → length marks ≡ length ys
      → pick (marks ++ true ∷ []) (ys ++ y ∷ []) ≡ pick marks ys ++ y ∷ []
  pick-kept [] [] y h = refl
  pick-kept [] (z ∷ ys) y h = ground arith
  pick-kept (b ∷ marks) [] y h = ground arith
  pick-kept (true ∷ marks) (z ∷ ys) y h = ap (λ l. z ∷ l) (pick-kept marks ys y (ground arith))
  pick-kept (false ∷ marks) (z ∷ ys) y h = pick-kept marks ys y (ground arith)

  pick-lost :
      (marks : List Bool) (ys : List A) (y : A)
      → length marks ≡ length ys
      → pick (marks ++ false ∷ []) (ys ++ y ∷ []) ≡ pick marks ys
  pick-lost [] [] y h = refl
  pick-lost [] (z ∷ ys) y h = ground arith
  pick-lost (b ∷ marks) [] y h = ground arith
  pick-lost (true ∷ marks) (z ∷ ys) y h = ap (λ l. z ∷ l) (pick-lost marks ys y (ground arith))
  pick-lost (false ∷ marks) (z ∷ ys) y h = pick-lost marks ys y (ground arith)

  -- One that was kept is lost.
  unpick :
      (marks : List Bool) (ys xs : List A) (x : A) (rest : List A)
      → pick marks ys ≡ xs ++ x ∷ rest
      → (after : List Bool) × (length after ≡ length marks)
        × (pick after ys ≡ xs ++ rest)
        × (misses after ≡ misses marks + 1)
  unpick [] ys [] x rest h = cc
  unpick [] ys (w ∷ xs) x rest h = cc
  unpick (b ∷ marks) [] [] x rest h = cc
  unpick (b ∷ marks) [] (w ∷ xs) x rest h = cc
  unpick (true ∷ marks) (y ∷ ys) [] x rest h =
      (false ∷ marks, refl, (tail_of y x (pick marks ys) rest h).1, refl)
  unpick (true ∷ marks) (y ∷ ys) (w ∷ xs) x rest h =
      let (same, below) = tail_of y w (pick marks ys) (xs ++ x ∷ rest) h in
      let (after, long, kept, lost) = unpick marks ys xs x rest below in
      (true ∷ after, ground arith, (λ i. same i ∷ kept i), lost)
  unpick (false ∷ marks) (y ∷ ys) xs x rest h =
      let (after, long, kept, lost) = unpick marks ys xs x rest h in
      (false ∷ after, ground arith, kept, ground arith)

misses-kept : (marks : List Bool) → misses (marks ++ true ∷ []) ≡ misses marks
misses-kept [] = refl
misses-kept (true ∷ marks) = misses-kept marks
misses-kept (false ∷ marks) = ap (λ n. n + 1) (misses-kept marks)

misses-lost : (marks : List Bool) → misses (marks ++ false ∷ []) ≡ misses marks + 1
misses-lost [] = refl
misses-lost (true ∷ marks) = misses-lost marks
misses-lost (false ∷ marks) = ap (λ n. n + 1) (misses-lost marks)

length-snoc : {A : Type 0} (xs : List A) (x : A) → length (xs ++ x ∷ []) ≡ length xs + 1
length-snoc xs x = omega (arith, length-append xs (x ∷ []))

map-snoc :
    {A B : Type 0} (f : A → B) (xs : List A) (x : A) → map f (xs ++ x ∷ []) ≡ map f xs ++ f x ∷ []
map-snoc f [] x = refl
map-snoc f (y ∷ xs) x = ap (λ l. f y ∷ l) (map-snoc f xs x)

-- The record in the hands of the writer.
abbrev pub held : Option AuditRecord → List AuditRecord
held none = []
held (some rec) = rec ∷ []

module _ (g : ℤ → Result Error Profile) where
  -- The rows that were written, then that of the record in hand, then those that wait.
  abbrev pub rows : AuditingResolver → List AuditEvent
  rows a = a.written ++ map (event_of g) (held a.in_hand ++ a.ch)

  -- The marks tell which answers are among these rows; the others were dropped, and counted; and no
  -- more than the channel has places for wait.
  pub record IsConserved (all : List AuditEvent) (a : AuditingResolver) : Type 0 where
    pub marks : List Bool
    pub each : length marks ≡ length all
    pub kept : pick marks all ≡ rows a
    pub lost : misses marks ≡ a.dropped
    pub bound : length a.ch ≤ buffer

  offer-kept :
      (rec : AuditRecord) (a : AuditingResolver) (all : List AuditEvent)
      → IsConserved all a
      → a.closed ≡ false
      → ltb (length a.ch) buffer ≡ true
      → IsConserved (all ++ event_of g rec ∷ []) (record a { ch = a.ch ++ rec ∷ [] })
  offer-kept rec a all h open_ room = record {
    marks = h.marks ++ true ∷ [];
    each = omega (arith, length-snoc h.marks true, length-snoc all (event_of g rec), h.each);
    kept =
        pick-kept h.marks all (event_of g rec) h.each
        ∙ ap (λ l. l ++ event_of g rec ∷ []) h.kept
        ∙ append_assoc a.written (map (event_of g) (held a.in_hand ++ a.ch)) (event_of g rec ∷ [])
        ∙ ap (λ l. a.written ++ l)
            (sym (map-snoc (event_of g) (held a.in_hand ++ a.ch) rec)
              ∙ ap (map (event_of g)) (append_assoc (held a.in_hand) a.ch (rec ∷ [])));
    lost = misses-kept h.marks ∙ h.lost;
    bound = ground (arith, length-snoc a.ch rec, room, h.bound);
  }

  offer-lost :
      (rec : AuditRecord) (a : AuditingResolver) (all : List AuditEvent)
      → IsConserved all a
      → IsConserved (all ++ event_of g rec ∷ []) (record a { dropped = a.dropped + 1 })
  offer-lost rec a all h = record {
    marks = h.marks ++ false ∷ [];
    each = omega (arith, length-snoc h.marks false, length-snoc all (event_of g rec), h.each);
    kept = pick-lost h.marks all (event_of g rec) h.each ∙ h.kept;
    lost = misses-lost h.marks ∙ ap (λ n. n + 1) h.lost;
    bound = h.bound;
  }

  offer-IsConserved :
      (rec : AuditRecord) (a : AuditingResolver) (all : List AuditEvent)
      → IsConserved all a
      → IsConserved (all ++ event_of g rec ∷ []) (offer rec a)
  unfolding offer
  offer-IsConserved rec a all h = elim (Bool-cases a.closed) [
    | inl e ↦ subst conserved (ground (arith, e)) (offer-lost rec a all h)
    | inr e ↦ elim (Bool-cases (ltb (length a.ch) buffer)) [
      | inl room ↦ subst conserved (ground (arith, e, room)) (offer-kept rec a all h e room)
      | inr full ↦ subst conserved (ground (arith, e, full)) (offer-lost rec a all h)
    ]
  ]
    where
      conserved : AuditingResolver → Type 0
      conserved b = IsConserved (all ++ event_of g rec ∷ []) b

  -- By what the writer holds and what waits.
  receive-IsConserved :
      (closed : Bool) (dropped : ℕ) (written : List AuditEvent) (in_hand : Option AuditRecord)
      (ch : List AuditRecord) (all : List AuditEvent)
      → let a : AuditingResolver = record {
        ch = ch;
        in_hand = in_hand;
        closed = closed;
        dropped = dropped;
        written = written;
      } in
        IsConserved all a → IsConserved all (receive a)
  unfolding receive
  receive-IsConserved closed dropped written (some rec) ch all h = h
  receive-IsConserved closed dropped written none [] all h = h
  receive-IsConserved closed dropped written none (rec ∷ rest) all h = record {
    marks = h.marks;
    each = h.each;
    kept = h.kept;
    lost = h.lost;
    bound = ground (arith, h.bound);
  }

  write-IsConserved :
      (success closed : Bool) (dropped : ℕ) (written : List AuditEvent)
      (in_hand : Option AuditRecord) (ch : List AuditRecord) (all : List AuditEvent)
      → let a : AuditingResolver = record {
        ch = ch;
        in_hand = in_hand;
        closed = closed;
        dropped = dropped;
        written = written;
      } in
        IsConserved all a → IsConserved all (write g success a)
  unfolding write
  write-IsConserved success closed dropped written none ch all h = h
  write-IsConserved true closed dropped written (some rec) ch all h = record {
    marks = h.marks;
    each = h.each;
    kept = h.kept ∙ sym (append_assoc written (event_of g rec ∷ []) (map (event_of g) ch));
    lost = h.lost;
    bound = h.bound;
  }
  write-IsConserved false closed dropped written (some rec) ch all h =
      let (after, long, kept, lost) =
        unpick h.marks all written (event_of g rec) (map (event_of g) ch) h.kept in
      record {
        marks = after;
        each = long ∙ h.each;
        kept = kept;
        lost = lost ∙ ap (λ n. n + 1) h.lost;
        bound = h.bound;
      }

  close-IsConserved :
      (a : AuditingResolver) (all : List AuditEvent) → IsConserved all a → IsConserved all (close a)
  unfolding close
  close-IsConserved a all h = record {
    marks = h.marks;
    each = h.each;
    kept = h.kept;
    lost = h.lost;
    bound = h.bound;
  }

-- Each answer that was recorded is kept or lost, and not both. The kept ones are, in order and each
-- once, the rows that were written, the record in the hands of the writer and those that wait in the
-- channel; `dropped` counts the lost ones; and at most 256 wait.
pub run-IsConserved :
    (g : ℤ → Result Error Profile) (actions : List Action)
    → IsConserved g (submitted g actions) (run g actions)
unfolding run act submitted
run-IsConserved g [] = record {
  marks = [];
  each = refl;
  kept = refl;
  lost = refl;
  bound = omega arith;
}
run-IsConserved g (resolved rec ∷ earlier) =
    offer-IsConserved g rec (run g earlier) (submitted g earlier) (run-IsConserved g earlier)
run-IsConserved g (takes ∷ earlier) =
    let a = run g earlier in
    receive-IsConserved g a.closed a.dropped a.written a.in_hand a.ch (submitted g earlier)
      (run-IsConserved g earlier)
run-IsConserved g (wrote success ∷ earlier) =
    let a = run g earlier in
    write-IsConserved g success a.closed a.dropped a.written a.in_hand a.ch (submitted g earlier)
      (run-IsConserved g earlier)
run-IsConserved g (closes ∷ earlier) =
    close-IsConserved g (run g earlier) (submitted g earlier) (run-IsConserved g earlier)
