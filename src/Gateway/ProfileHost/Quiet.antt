-- ===== src/Gateway/ProfileHost/Quiet.antt =====
-- Every history keeps account of the sandboxes, and after shutdown none is left.
use gigmcp.Base.{
  List, [], ◌∷◌, ◌++◌, ℤ, Bool, true, false, none, some, ◌≡◌, ◌⊎◌, inl, inr, refl, comparable_int,
  comparable_nat, lookup, insert, delete, lookup-insert, lookup-delete, arith, int_beq_iff,
  Option-cases, occurrences, in_option, in_map, delete-Keyed, insert-Keyed, in_map-delete,
  in_map-insert, occurrences-append, empty_of_occurrences,
}
use gigmcp.Gateway.ProfileHost.{
  Sandbox, Runtime, commit, System, idle, Event, request, launch, finish, fail, invalidated,
  shutdown, cleaned, ended, step, run,
}
use gigmcp.Gateway.ProfileHost.Cleanup.{
  IsAccounted, to_step, entries-Keyed, cleaned-IsAccounted, shutdown-IsAccounted,
  invalidated-IsAccounted, launch-IsAccounted,
}
use gigmcp.Gateway.ProfileHost.Requests.{request-IsAccounted}

-- The builder is gone, and its sandboxes are due for cleanup.
abbrev cast_off : ℤ → List Sandbox → System → System
cast_off p boxes s = record s {
  host = record s.host { building = delete p s.host.building };
  builders = delete p s.builders;
  condemned = boxes ++ s.condemned;
}

-- The builder is gone, and its sandboxes are the runtime's.
abbrev kept : ℤ → List Sandbox → List (ℤ × Runtime) → System → System
kept p boxes rts s = record s {
  host = record s.host {
    building = delete p s.host.building;
    runtimes = some (insert p boxes rts);
  };
  builders = delete p s.builders;
}

absent_builder :
    (p : ℤ) (success : Bool) (s : System) → lookup p s.builders ≡ none → s ≡ ended p success s
unfolding ended
absent_builder p success s e = ground (arith, e)

failed_builder :
    (p : ℤ) (success : Bool) (s : System) (boxes : List Sandbox)
    → lookup p s.builders ≡ some boxes
    → (success ≡ false) ⊎ (s.host.runtimes ≡ none)
    → cast_off p boxes s ≡ ended p success s
unfolding ended commit
failed_builder p true s boxes e (inl absurd_) = ground arith
failed_builder p true s boxes e (inr nil) = ground (arith, e, nil)
failed_builder p false s boxes e d = ground (arith, e)

stored_builder :
    (p : ℤ) (s : System) (boxes : List Sandbox) (rts : List (ℤ × Runtime))
    → lookup p s.builders ≡ some boxes
    → s.host.runtimes ≡ some rts
    → kept p boxes rts s ≡ ended p true s
unfolding ended commit
stored_builder p s boxes rts e f = ground (arith, e, f)

cast_off-IsAccounted :
    (p : ℤ) (s : System) (boxes : List Sandbox)
    → lookup p s.builders ≡ some boxes
    → IsAccounted s
    → IsAccounted (cast_off p boxes s)
unfolding in_option
cast_off-IsAccounted p s boxes e h = record {
  balance = λ c. ground (
    arith,
    e,
    h.balance c,
    in_map-delete c p s.builders h.builders_keyed,
    occurrences-append c boxes s.condemned,
  );
  claims = λ q.
      ground (arith, h.claims q, lookup-delete p q s.builders, lookup-delete p q s.host.building);
  apart = λ q f. ground (arith, h.apart q, f, lookup-delete p q s.builders);
  builders_keyed = delete-Keyed p s.builders h.builders_keyed;
  runtimes_keyed = h.runtimes_keyed;
  shut = h.shut;
}

kept-IsAccounted :
    (p : ℤ) (s : System) (boxes : List Sandbox) (rts : List (ℤ × Runtime))
    → lookup p s.builders ≡ some boxes
    → s.host.runtimes ≡ some rts
    → IsAccounted s
    → IsAccounted (kept p boxes rts s)
unfolding in_option
kept-IsAccounted p s boxes rts e f h = record {
  balance = λ c. ground (
    arith,
    e,
    f,
    h.balance c,
    h.apart p,
    in_map-delete c p s.builders h.builders_keyed,
    in_map-insert c p boxes rts (entries-Keyed h f),
  );
  claims = λ q.
      ground (arith, h.claims q, lookup-delete p q s.builders, lookup-delete p q s.host.building);
  apart = λ q g. ground (
    arith,
    f,
    h.apart q,
    g,
    lookup-delete p q s.builders,
    lookup-insert p q boxes rts,
    int_beq_iff p q,
  );
  builders_keyed = delete-Keyed p s.builders h.builders_keyed;
  runtimes_keyed = insert-Keyed p boxes rts (entries-Keyed h f);
  shut = λ g. ground (arith, f, h.shut g);
}

ended-IsAccounted :
    (p : ℤ) (success : Bool) (s : System) → IsAccounted s → IsAccounted (ended p success s)
ended-IsAccounted p success s h = elim (Option-cases (lookup p s.builders)) [
  | inl e ↦ to_step (absent_builder p success s e) h
  | inr (boxes, e) ↦ by_outcome success boxes e (Option-cases s.host.runtimes)
]
  where
    by_outcome :
        (success : Bool) (boxes : List Sandbox)
        → lookup p s.builders ≡ some boxes
        → (s.host.runtimes ≡ none) ⊎ ((rts : List (ℤ × Runtime)) × (s.host.runtimes ≡ some rts))
        → IsAccounted (ended p success s)
    by_outcome false boxes e d =
        to_step (failed_builder p false s boxes e (inl refl)) (cast_off-IsAccounted p s boxes e h)
    by_outcome true boxes e (inl nil) =
        to_step (failed_builder p true s boxes e (inr nil)) (cast_off-IsAccounted p s boxes e h)
    by_outcome true boxes e (inr (rts, f)) =
        to_step (stored_builder p s boxes rts e f) (kept-IsAccounted p s boxes rts e f h)

step-IsAccounted : (e : Event) (s : System) → IsAccounted s → IsAccounted (step e s)
unfolding step
step-IsAccounted (request p) s h = request-IsAccounted p s h
step-IsAccounted (launch p box) s h = launch-IsAccounted p box s h
step-IsAccounted (finish p) s h = ended-IsAccounted p true s h
step-IsAccounted (fail p) s h = ended-IsAccounted p false s h
step-IsAccounted (invalidated p) s h = invalidated-IsAccounted p s h
step-IsAccounted shutdown s h = shutdown-IsAccounted s h
step-IsAccounted (cleaned box) s h = cleaned-IsAccounted box s h

idle-IsAccounted : IsAccounted idle
unfolding occurrences in_map lookup
idle-IsAccounted = record {
  balance = λ c. refl;
  claims = λ p. refl;
  apart = λ p e. refl;
  builders_keyed = tt;
  runtimes_keyed = tt;
  shut = λ e. ground arith;
}

-- In every interleaving of requests, spawns, their ends, invalidations, a shutdown and cleanups:
-- each sandbox runs exactly as often as it is held by builders, by runtimes and by cleanups that
-- are due; one goroutine at most builds a profile, namely where the map of builds has it, and only
-- a profile without a runtime; and a host that is closed has no runtimes.
pub run-IsAccounted : (events : List Event) → IsAccounted (run events idle)
unfolding run
run-IsAccounted [] = idle-IsAccounted
run-IsAccounted (e ∷ earlier) = step-IsAccounted e (run earlier idle) (run-IsAccounted earlier)

-- Once the host is closed, no builder spawns any more and no cleanup is due, no sandbox runs.
pub run-quiet :
    (events : List Event)
    → (run events idle).host.closed ≡ true
    → (run events idle).builders ≡ []
    → (run events idle).condemned ≡ []
    → (run events idle).live ≡ []
unfolding in_map occurrences
run-quiet events closed no_builders none_due =
    let s = run events idle in
    let h = run-IsAccounted events in
    empty_of_occurrences s.live
      (λ c. ground (arith, h.balance c, h.shut closed, no_builders, none_due))
