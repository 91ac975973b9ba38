-- ===== src/Gateway/ProfileHost.antt =====
-- internal/gateway/profilehost.go: the runtimes of the profiles, built on the first request, shared
-- by later ones, and torn down on a change of the bundle or at shutdown. A runtime is the list of
-- its sandboxes, each with its cleanup.
pub mod Cleanup
pub mod Requests
pub mod Quiet
use gigmcp.Base.{
  List, [], ◌∷◌, ◌++◌, ℕ, ℤ, Bool, true, false, Option, none, some, ◌==◌, comparable_int,
  if◌then◌else◌, lookup, insert, delete, any, take_out, comparable_nat,
}

abbrev pub Sandbox : Type 0
Sandbox = ℕ

abbrev pub Runtime : Type 0
Runtime = List Sandbox

-- `none` is the nil map.
pub record ProfileHost : Type 0 where
  pub closed : Bool
  pub runtimes : Option (List (ℤ × Runtime))
  pub building : List (ℤ × Unit {0})

abbrev pub new_profile_host : ProfileHost
new_profile_host = record { closed = false; runtimes = none; building = [] }

abbrev pub entries {ℓ} : {A : Type ℓ} → Option (List A) → List A
entries none = []
entries (some l) = l

-- What the locked part of getOrCreate finds: the host is closed, a runtime is there, another
-- goroutine builds one, or this goroutine has to.
pub data Entry : Type 0 where
  host_closed wait claimed : Entry
  warm : Runtime → Entry

unfoldable pub enter : ℤ → ProfileHost → Entry × ProfileHost
enter p h = if h.closed then (host_closed, h) else elim (lookup p (entries h.runtimes)) [
  | some rt ↦ (warm rt, record h { runtimes = some (entries h.runtimes) })
  | none ↦ elim (lookup p h.building) [
    | some ch ↦ (wait, record h { runtimes = some (entries h.runtimes) })
    | none ↦ (
      claimed,
      record h { runtimes = some (entries h.runtimes); building = insert p tt h.building },
    )
  ]
]

-- What the builder does with the result of the spawn; `none` is its error.
pub data Commit : Type 0 where
  failed stored : Commit
  abandoned : Runtime → Commit

unfoldable pub commit : ℤ → Option Runtime → ProfileHost → Commit × ProfileHost
commit p none h = (failed, record h { building = delete p h.building })
commit p (some rt) h = elim h.runtimes [
  | none ↦ (abandoned rt, record h { building = delete p h.building })
  | some rts ↦
      (stored, record h { building = delete p h.building; runtimes = some (insert p rt rts) })
]

unfoldable pub invalidate : ℤ → ProfileHost → Option Runtime × ProfileHost
invalidate p h = elim h.runtimes [
  | none ↦ (none, h)
  | some rts ↦ (lookup p rts, record h { runtimes = some (delete p rts) })
]

unfoldable pub close : ProfileHost → List (ℤ × Runtime) × ProfileHost
close h = (entries h.runtimes, record h { runtimes = none; closed = true })

-- The process: the host, the goroutines that spawn, each with the sandboxes it has so far, the
-- sandboxes whose cleanup is due, and those that run.
pub record System : Type 0 where
  pub host : ProfileHost
  pub builders : List (ℤ × List Sandbox)
  pub condemned : List Sandbox
  pub live : List Sandbox

abbrev pub idle : System
idle = record { host = new_profile_host; builders = []; condemned = []; live = [] }

unfoldable pub all_sandboxes : List (ℤ × Runtime) → List Sandbox
all_sandboxes [] = []
all_sandboxes ((p, rt) ∷ m) = rt ++ all_sandboxes m

pub data Event : Type 0 where
  -- a request, and the ends of a spawn of one sandbox and of a whole bundle
  request : ℤ → Event
  launch : ℤ → Sandbox → Event
  finish fail : ℤ → Event
  invalidated : ℤ → Event
  shutdown : Event
  -- one cleanup function has run
  cleaned : Sandbox → Event

abbrev begun : ℤ → List (ℤ × List Sandbox) → Entry → List (ℤ × List Sandbox)
begun p builders claimed = insert p [] builders
begun p builders _ = builders

abbrev after_commit : List Sandbox → Commit → List Sandbox
after_commit condemned (abandoned rt) = rt ++ condemned
after_commit condemned _ = condemned

-- The builder of a profile is done, with a runtime or with an error, which cleans up what it has.
unfoldable pub ended : ℤ → Bool → System → System
unfolding commit
ended p success s = elim (lookup p s.builders) [
  | none ↦ s
  | some boxes ↦
      let done = commit p (if success then some boxes else none) s.host in
      record s {
        host = done.1;
        builders = delete p s.builders;
        condemned = if success then after_commit s.condemned done.0 else boxes ++ s.condemned;
      }
]

unfoldable pub step : Event → System → System
unfolding any take_out enter ended invalidate close all_sandboxes
step (request p) s = record s {
  host = (enter p s.host).1;
  builders = begun p s.builders (enter p s.host).0;
}
step (launch p box) s = elim (lookup p s.builders) [
  | none ↦ s
  | some boxes ↦ record s { builders = insert p (box ∷ boxes) s.builders; live = box ∷ s.live }
]
step (finish p) s = ended p true s
step (fail p) s = ended p false s
step (invalidated p) s = record s {
  host = (invalidate p s.host).1;
  condemned = entries (invalidate p s.host).0 ++ s.condemned;
}
step shutdown s = record s {
  host = (close s.host).1;
  condemned = all_sandboxes (close s.host).0 ++ s.condemned;
}
step (cleaned box) s =
    if any (λ b. b == box) s.condemned
    then record s { condemned = take_out box s.condemned; live = take_out box s.live }
    else s

-- The latest event stands first.
unfoldable pub run : List Event → System → System
unfolding step
run [] s = s
run (e ∷ earlier) s = step e (run earlier s)
