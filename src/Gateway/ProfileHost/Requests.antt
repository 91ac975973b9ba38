-- ===== src/Gateway/ProfileHost/Requests.antt =====
-- A request to a profile keeps the account of the sandboxes.
use gigmcp.Base.{
  [], ℤ, true, false, none, some, ◌≡◌, ◌⊎◌, inl, inr, comparable_int, comparable_nat, lookup,
  insert, lookup-insert, arith, int_beq_iff, Bool-cases, Option-cases, occurrences, in_option,
  insert-Keyed, in_map-insert,
}
use gigmcp.Gateway.ProfileHost.{entries, enter, System, request, step}
use gigmcp.Gateway.ProfileHost.Cleanup.{is_some, IsAccounted, to_step, with_runtimes}

-- A request that claims nothing only makes the map, in a host that is not closed.
IsAccounted-made :
    (s : System)
    → s.host.closed ≡ false
    → IsAccounted s
    → IsAccounted (with_runtimes (some (entries s.host.runtimes)) s)
IsAccounted-made s open_ h = record {
  balance = h.balance;
  claims = h.claims;
  apart = h.apart;
  builders_keyed = h.builders_keyed;
  runtimes_keyed = h.runtimes_keyed;
  shut = λ e. ground (arith, open_);
}

abbrev claiming : ℤ → System → System
claiming p s = record s {
  host = record s.host {
    runtimes = some (entries s.host.runtimes);
    building = insert p tt s.host.building;
  };
  builders = insert p [] s.builders;
}

request_shut : (p : ℤ) (s : System) → s.host.closed ≡ true → s ≡ step (request p) s
unfolding step enter
request_shut p s e = ground (arith, e)

request_served :
    (p : ℤ) (s : System)
    → s.host.closed ≡ false
    → (is_some (lookup p (entries s.host.runtimes)) ≡ true)
      ⊎ (is_some (lookup p s.host.building) ≡ true)
    → with_runtimes (some (entries s.host.runtimes)) s ≡ step (request p) s
unfolding step enter
request_served p s e d = ground (arith, e, d)

request_claims :
    (p : ℤ) (s : System)
    → s.host.closed ≡ false
    → lookup p (entries s.host.runtimes) ≡ none
    → lookup p s.host.building ≡ none
    → claiming p s ≡ step (request p) s
unfolding step enter
request_claims p s e cold first = ground (arith, e, cold, first)

claiming-IsAccounted :
    (p : ℤ) (s : System)
    → s.host.closed ≡ false
    → lookup p (entries s.host.runtimes) ≡ none
    → lookup p s.host.building ≡ none
    → IsAccounted s
    → IsAccounted (claiming p s)
unfolding in_option occurrences
claiming-IsAccounted p s e cold first h = record {
  balance = λ c.
      ground
        (arith, h.balance c, h.claims p, first, in_map-insert c p [] s.builders h.builders_keyed);
  claims = λ q. ground (
    arith,
    h.claims q,
    lookup-insert p q [] s.builders,
    lookup-insert p q tt s.host.building,
    int_beq_iff p q,
  );
  apart =
      λ q f. ground (arith, h.apart q, f, lookup-insert p q [] s.builders, int_beq_iff p q, cold);
  builders_keyed = insert-Keyed p [] s.builders h.builders_keyed;
  runtimes_keyed = h.runtimes_keyed;
  shut = λ g. ground (arith, e);
}

pub request-IsAccounted : (p : ℤ) (s : System) → IsAccounted s → IsAccounted (step (request p) s)
request-IsAccounted p s h = elim (Bool-cases s.host.closed) [
  | inl e ↦ to_step (request_shut p s e) h
  | inr e ↦ elim (Option-cases (lookup p (entries s.host.runtimes))) [
    | inr (rt, at) ↦
        to_step (request_served p s e (inl (ground (arith, at)))) (IsAccounted-made s e h)
    | inl cold ↦ elim (Option-cases (lookup p s.host.building)) [
      | inr (ch, flight) ↦
          to_step (request_served p s e (inr (ground (arith, flight)))) (IsAccounted-made s e h)
      | inl first ↦
          to_step (request_claims p s e cold first) (claiming-IsAccounted p s e cold first h)
    ]
  ]
]
