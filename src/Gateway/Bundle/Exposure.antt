-- ===== src/Gateway/Bundle/Exposure.antt =====
-- Which servers a profile runs, which of their tools it shows, and that a failure leaves no sandbox.
use gigmcp.Base.{
  Text, List, [], ◌∷◌, ◌++◌, Bool, true, false, not, ◌≡◌, inl, inr, refl, sym, ap, ◌∙◌, subst, ◌==◌,
  comparable_text, ◌&&◌, Option, none, some, ok, err, any, where_, map, first_where,
  first_where_holds, format_int, All, All-append, arith, text_beq_iff, Option-cases, Result-cases,
  Bool-cases,
}
use gigmcp.Store.Types.{Profile, Server, ManifestRecord, Error, manifest_not_found}
use gigmcp.Gateway.ProfileHost.{Sandbox}
use gigmcp.Gateway.Bundle.{
  Backend, Sources, Failure, store, expose, spawn, aggregator, or_none, tool_name, exposed,
  expose_for, Spawned, failed, finished, spawn_bundle, spawn_profile,
}

abbrev pub boxes : List Backend → List Sandbox
boxes = map (λ b. b.sandbox)

-- Whether a backend shows a tool: Backend.Expose, where the nil map shows all.
abbrev pub shows : Text → Backend → Bool
shows t b = elim b.expose [ none ↦ true | some names ↦ any (λ n. n == t) names ]

-- The owner has installed the server of the backend. With a manifest it shows the tools of the
-- manifest that the owner did not turn off, and without one all.
pub record IsChosen (s : Sources) (p : Profile) (b : Backend) : Type 0 where
  pub installed : s.is_user_installed p.user_id b.name ≡ ok true
  pub declared :
      (rec : ManifestRecord)
      → s.get_manifest b.name ≡ ok rec
      → (t : Text)
      → shows t b ≡ (
          any (λ n. n == t) (map tool_name rec.tools)
          && not (any (λ d. d == t) (or_none (s.list_user_disabled_tools p.user_id b.name))))
  pub known : (e : Error) → s.get_manifest b.name ≡ err e → e ≡ manifest_not_found

any-exposed :
    (t : Text) (names disabled : List Text)
    → any (λ n. n == t) (where_ (λ n. not (any (λ d. d == n) disabled)) names)
      ≡ (any (λ n. n == t) names && not (any (λ d. d == t) disabled))
unfolding any where_
any-exposed t [] disabled = ground arith
any-exposed t (n ∷ names) disabled = elim (Bool-cases (n == t)) [
  | inl e ↦ rw ((text_beq_iff n t).0 e) (
      ground (
        arith,
        text_beq_iff t t,
        any-exposed t names disabled,
        Bool-cases (any (λ d. d == t) disabled),
      ))
  | inr e ↦ ground (arith, e, any-exposed t names disabled)
]

expose-IsChosen :
    (s : Sources) (p : Profile) (name : Text) (box : Sandbox) (tools : Option (List Text))
    → expose_for s p name ≡ ok (some tools)
    → IsChosen s p (record { name = name; sandbox = box; expose = tools })
unfolding expose_for
expose-IsChosen s p name box tools e = elim (Result-cases (s.is_user_installed p.user_id name)) [
  | inr (f, failing) ↦ ground (arith, failing)
  | inl (false, absent) ↦ ground (arith, absent)
  | inl (true, present) ↦ elim (Result-cases (s.get_manifest name)) [
    | inl (rec, found) ↦ record {
      installed = present;
      declared = λ r at t.
          let disabled = or_none (s.list_user_disabled_tools p.user_id name) in
          let is : tools ≡ some (exposed rec.tools disabled) = ground (arith, present, found) in
          let same : rec ≡ r = ground (arith, found, at) in
          rw (is, same) (any-exposed t (map tool_name r.tools) disabled);
      known = λ f at. ground (arith, found, at);
    }
    | inr (manifest_not_found, missing) ↦ record {
      installed = present;
      declared = λ r at t. ground (arith, missing, at);
      known = λ f at. ground (arith, missing, at);
    }
    | inr (f, failing) ↦ ground (arith, present, failing)
  ]
]

-- A success holds the launched sandboxes and cleans none up; a failure cleans all of them up.
pub record IsTidy (s : Sources) (p : Profile) (r : Spawned) : Type 0 where
  pub chosen : (b : List Backend) → r.result ≡ ok b → All (IsChosen s p) b
  pub owned : (b : List Backend) → r.result ≡ ok b → (boxes b ≡ r.launched) × (r.cleaned ≡ [])
  pub undone : (f : Failure) → r.result ≡ err f → r.cleaned ≡ r.launched

failed-IsTidy :
    (s : Sources) (p : Profile) (f : Failure) (launched cleanups : List Sandbox)
    → cleanups ≡ launched
    → IsTidy s p (failed f launched cleanups)
failed-IsTidy s p f launched cleanups same = record {
  chosen = λ b e. ground arith;
  owned = λ b e. ground arith;
  undone = λ g e. same;
}

finished-IsTidy :
    (s : Sources) (p : Profile) (backends : List Backend) (launched cleanups : List Sandbox)
    → All (IsChosen s p) backends
    → boxes backends ≡ launched
    → cleanups ≡ launched
    → IsTidy s p (finished s backends launched cleanups)
finished-IsTidy s p backends launched cleanups all held same =
    elim (Option-cases (s.refuses backends)) [
      | inr (f, e) ↦ rw (e, finished) (failed-IsTidy s p (aggregator f) launched cleanups same)
      | inl e ↦
          rw (e, finished)
            (record {
              chosen =
                  λ b is. subst (λ (l : List Backend). All (IsChosen s p) l) (ground arith) all;
              owned = λ b is. (ap boxes (ground arith) ∙ held, refl);
              undone = λ g is. ground arith;
            })
    ]

map-snoc :
    {A B : Type 0} (f : A → B) (xs : List A) (x : A) → map f (xs ++ x ∷ []) ≡ map f xs ++ f x ∷ []
map-snoc f [] x = refl
map-snoc f (y ∷ xs) x = ap (λ l. f y ∷ l) (map-snoc f xs x)

spawn_bundle-IsTidy :
    (s : Sources) (p : Profile) (all : List Server) (names : List Text) (backends : List Backend)
    (launched cleanups : List Sandbox)
    → All (IsChosen s p) backends
    → boxes backends ≡ launched
    → cleanups ≡ launched
    → IsTidy s p (spawn_bundle s p all names backends launched cleanups)
unfolding spawn_bundle
spawn_bundle-IsTidy s p all [] backends launched cleanups h held same =
    finished-IsTidy s p backends launched cleanups h held same
spawn_bundle-IsTidy s p all (n ∷ names) backends launched cleanups h held same =
    elim (Option-cases (first_where (λ (srv : Server). srv.name == n) all)) [
      | inl e ↦
          rw (e, spawn_bundle)
            (spawn_bundle-IsTidy s p all names backends launched cleanups h held same)
      | inr (srv, e) ↦
          rw (e, spawn_bundle)
            (elim (Result-cases (expose_for s p n)) [
              | inr (f, failing) ↦ rw failing (failed-IsTidy s p (expose f) launched cleanups same)
              | inl (none, skipped) ↦
                  rw skipped
                    (spawn_bundle-IsTidy s p all names backends launched cleanups h held same)
              | inl (some tools, on) ↦ rw on (elim (Result-cases (s.spawn srv (format_int p.id))) [
                | inr (f, failing) ↦ rw failing (failed-IsTidy s p (spawn f) launched cleanups same)
                | inl (box, started) ↦ rw started (
                    spawn_bundle-IsTidy s p all names
                      (backends ++ record { name = srv.name; sandbox = box; expose = tools } ∷ [])
                      (launched ++ box ∷ []) (cleanups ++ box ∷ [])
                      (All-append (IsChosen s p) backends
                        (record { name = srv.name; sandbox = box; expose = tools } ∷ []) h
                        (expose-IsChosen s p srv.name box tools (named srv e on), tt))
                      (map-snoc (λ b. b.sandbox) backends
                          (record { name = srv.name; sandbox = box; expose = tools })
                        ∙ ap (λ l. l ++ box ∷ []) held)
                      (ap (λ l. l ++ box ∷ []) same))
              ])
            ])
    ]
  where
    named :
        {tools : Option (List Text)} (srv : Server)
        → first_where (λ (srv : Server). srv.name == n) all ≡ some srv
        → expose_for s p n ≡ ok (some tools)
        → expose_for s p srv.name ≡ ok (some tools)
    named srv e on =
        rw ((text_beq_iff srv.name n).0 (first_where_holds (λ (x : Server). x.name == n) all e)) on

spawned :
    (s : Sources) (p : Profile) (names : List Text) (all : List Server)
    → s.get_profile_servers p.id ≡ ok names
    → s.list_servers ≡ ok all
    → spawn_bundle s p all names [] [] [] ≡ spawn_profile s p
unfolding spawn_profile
spawned s p names all found listed = ground (arith, found, listed)

-- When the bundle of a profile starts, its owner has installed each server in it. A server with a
-- manifest shows exactly the tools of the manifest that the owner did not turn off, or all of them
-- when the tools that the owner turned off cannot be read, and one is only without a manifest if the
-- store says that there is none. The runtime then owns exactly the
-- sandboxes that were launched, and when the start fails all that were launched are cleaned up.
pub spawn_profile-IsTidy : (s : Sources) (p : Profile) → IsTidy s p (spawn_profile s p)
unfolding spawn_profile
spawn_profile-IsTidy s p = elim (Result-cases (s.get_profile_servers p.id)) [
  | inr (e, failing) ↦ rw (failing, spawn_profile) (failed-IsTidy s p (store e) [] [] refl)
  | inl (names, found) ↦ elim (Result-cases s.list_servers) [
    | inr (e, failing) ↦ unlisted names e found failing
    | inl (all, listed) ↦
        subst (IsTidy s p) (spawned s p names all found listed)
          (spawn_bundle-IsTidy s p all names [] [] [] tt refl refl)
  ]
]
  where
    unlisted :
        (names : List Text) (e : Error)
        → s.get_profile_servers p.id ≡ ok names
        → s.list_servers ≡ err e
        → IsTidy s p (spawn_profile s p)
    unlisted names e found failing =
        subst (IsTidy s p)
          (λ i. elim (sym found i) [
            | err f ↦ failed (store f) [] []
            | ok ns ↦ elim (sym failing i) [
              | err f ↦ failed (store f) [] []
              | ok all ↦ spawn_bundle s p all ns [] [] []
            ]
          ])
          (failed-IsTidy s p (store e) [] [] refl)
