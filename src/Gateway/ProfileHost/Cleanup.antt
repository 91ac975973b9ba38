-- ===== src/Gateway/ProfileHost/Cleanup.antt =====
-- No sandbox is lost: each one that runs belongs to a builder, to a runtime, or to a cleanup that is
-- due.
use gigmcp.Base.{
  List, [], ◌∷◌, ◌++◌, ℕ, ◌+◌, ℤ, Bool, true, false, Option, none, some, ◌≡◌, inl, inr, refl, ap,
  subst, ◌∙◌, ◌==◌, comparable_int, comparable_nat, lookup, insert, delete, lookup-insert,
  lookup-delete, any, arith, int_beq_iff, nat_beq_iff, Bool-cases, Option-cases, occurrences,
  in_option, in_map, Keyed, delete-Keyed, insert-Keyed, in_map-delete, in_map-insert,
  occurrences-append, occurrences-take_out, occurrences-any,
}
use gigmcp.Gateway.ProfileHost.{
  Sandbox, Runtime, entries, invalidate, close, System, all_sandboxes, launch, invalidated,
  shutdown, cleaned, step,
}

abbrev pub is_some {ℓ} : {A : Type ℓ} → Option A → Bool
is_some none = false
is_some (some a) = true

abbrev pub held : ℕ → System → ℕ
held c s = in_map c (entries s.host.runtimes)

-- `claims`: the map of builds in flight names the profiles of the goroutines that spawn, which are
-- one per profile. `apart`: a profile that is being built has no runtime.
pub record IsAccounted (s : System) : Type 0 where
  pub balance :
      (c : ℕ) → occurrences c s.live ≡ in_map c s.builders + (held c s + occurrences c s.condemned)
  pub claims : (p : ℤ) → is_some (lookup p s.host.building) ≡ is_some (lookup p s.builders)
  pub apart :
      (p : ℤ) → is_some (lookup p s.builders) ≡ true → lookup p (entries s.host.runtimes) ≡ none
  pub builders_keyed : Keyed s.builders
  pub runtimes_keyed : Keyed (entries s.host.runtimes)
  pub shut : s.host.closed ≡ true → s.host.runtimes ≡ none

occurrences-all_sandboxes :
    (c : ℕ) (m : List (ℤ × Runtime)) → occurrences c (all_sandboxes m) ≡ in_map c m
unfolding all_sandboxes in_map occurrences
occurrences-all_sandboxes c [] = refl
occurrences-all_sandboxes c ((p, rt) ∷ m) =
    occurrences-append c rt (all_sandboxes m)
    ∙ ap (λ n. occurrences c rt + n) (occurrences-all_sandboxes c m)

in_option-entries : (c : ℕ) (o : Option (List ℕ)) → in_option c o ≡ occurrences c (entries o)
unfolding in_option occurrences
in_option-entries c none = refl
in_option-entries c (some xs) = refl

pub cleaned-IsAccounted :
    (box : Sandbox) (s : System) → IsAccounted s → IsAccounted (step (cleaned box) s)
unfolding step
cleaned-IsAccounted box s h = elim (Bool-cases (any (λ b. b == box) s.condemned)) [
  | inr e ↦ rw e h
  | inl e ↦ rw e (record {
    balance = λ c. ground (
      arith,
      h.balance c,
      h.balance box,
      occurrences-take_out c box s.live,
      occurrences-take_out c box s.condemned,
      occurrences-any box s.condemned e,
      nat_beq_iff box c,
    );
    claims = h.claims;
    apart = h.apart;
    builders_keyed = h.builders_keyed;
    runtimes_keyed = h.runtimes_keyed;
    shut = h.shut;
  })
]

pub shutdown-IsAccounted : (s : System) → IsAccounted s → IsAccounted (step shutdown s)
unfolding step close in_map lookup
shutdown-IsAccounted s h = record {
  balance = λ c. ground (
    arith,
    h.balance c,
    occurrences-append c (all_sandboxes (entries s.host.runtimes)) s.condemned,
    occurrences-all_sandboxes c (entries s.host.runtimes),
  );
  claims = h.claims;
  apart = λ p e. refl;
  builders_keyed = h.builders_keyed;
  runtimes_keyed = tt;
  shut = λ e. refl;
}

pub to_step : {s t : System} → t ≡ s → IsAccounted t → IsAccounted s
to_step e h = subst IsAccounted e h

-- A host with other runtimes, or none.
abbrev pub with_runtimes : Option (List (ℤ × Runtime)) → System → System
with_runtimes rts s = record s { host = record s.host { runtimes = rts } }

pub entries-Keyed :
    {s : System} {rts : List (ℤ × Runtime)} → IsAccounted s → s.host.runtimes ≡ some rts → Keyed rts
entries-Keyed h e =
    subst (λ (o : Option (List (ℤ × Runtime))). Keyed (entries o)) e h.runtimes_keyed

invalidated_some :
    (p : ℤ) (s : System) (rts : List (ℤ × Runtime))
    → s.host.runtimes ≡ some rts
    → record (with_runtimes (some (delete p rts)) s) {
      condemned = entries (lookup p rts) ++ s.condemned;
    }
      ≡ step (invalidated p) s
unfolding step invalidate
invalidated_some p s rts e = ground (arith, e)

invalidated_none : (p : ℤ) (s : System) → s.host.runtimes ≡ none → s ≡ step (invalidated p) s
unfolding step invalidate
invalidated_none p s e = ground (arith, e)

pub invalidated-IsAccounted :
    (p : ℤ) (s : System) → IsAccounted s → IsAccounted (step (invalidated p) s)
invalidated-IsAccounted p s h = elim (Option-cases s.host.runtimes) [
  | inl e ↦ to_step (invalidated_none p s e) h
  | inr (rts, e) ↦ to_step (invalidated_some p s rts e) (record {
    balance = λ c. ground (
      arith,
      e,
      h.balance c,
      in_map-delete c p rts (entries-Keyed h e),
      in_option-entries c (lookup p rts),
      occurrences-append c (entries (lookup p rts)) s.condemned,
    );
    claims = h.claims;
    apart = λ q f. ground (arith, e, h.apart q f, lookup-delete p q rts);
    builders_keyed = h.builders_keyed;
    runtimes_keyed = delete-Keyed p rts (entries-Keyed h e);
    shut = λ f. ground (arith, e, h.shut f);
  })
]

abbrev launched : ℤ → Sandbox → List Sandbox → System → System
launched p box boxes s = record s {
  builders = insert p (box ∷ boxes) s.builders;
  live = box ∷ s.live;
}

launch_some :
    (p : ℤ) (box : Sandbox) (s : System) (boxes : List Sandbox)
    → lookup p s.builders ≡ some boxes
    → launched p box boxes s ≡ step (launch p box) s
unfolding step
launch_some p box s boxes e = ground (arith, e)

launch_none :
    (p : ℤ) (box : Sandbox) (s : System) → lookup p s.builders ≡ none → s ≡ step (launch p box) s
unfolding step
launch_none p box s e = ground (arith, e)

pub launch-IsAccounted :
    (p : ℤ) (box : Sandbox) (s : System) → IsAccounted s → IsAccounted (step (launch p box) s)
unfolding in_option occurrences
launch-IsAccounted p box s h = elim (Option-cases (lookup p s.builders)) [
  | inl e ↦ to_step (launch_none p box s e) h
  | inr (boxes, e) ↦ to_step (launch_some p box s boxes e) (record {
    balance = λ c.
        ground (arith, e, h.balance c, in_map-insert c p (box ∷ boxes) s.builders h.builders_keyed);
    claims = λ q.
        ground (arith, h.claims q, lookup-insert p q (box ∷ boxes) s.builders, int_beq_iff p q, e);
    apart = λ q f.
        h.apart q (ground (arith, lookup-insert p q (box ∷ boxes) s.builders, int_beq_iff p q, e));
    builders_keyed = insert-Keyed p (box ∷ boxes) s.builders h.builders_keyed;
    runtimes_keyed = h.runtimes_keyed;
    shut = h.shut;
  })
]
