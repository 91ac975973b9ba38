-- ===== src/Proxy/Registry.antt =====
-- internal/proxy/registry.go: the source IP of a sandbox, and the tenant behind it.
use gigmcp.Base.{
  Text, List, [], Option, none, some, ◌≡◌, refl, lookup, insert, delete, lookup-insert,
  lookup-delete, if◌then◌else◌, ◌==◌, comparable_text,
}
use gigmcp.Proxy.{Identity}

pub record Registry : Type 0 where
  pub m : List (Text × Identity)

unfoldable pub new_registry : Registry
new_registry = record { m = [] }

unfoldable pub bind : Text → Identity → Registry → Registry
bind ip id r = record { m = insert ip id r.m }

pub unbind : Text → Registry → Registry
unbind ip r = record { m = delete ip r.m }

unfoldable pub find : Text → Registry → Option Identity
find ip r = lookup ip r.m

pub find-bind :
    (ip jp : Text) (id : Identity) (r : Registry)
    → find jp (bind ip id r) ≡ (if ip == jp then some id else find jp r)
unfolding find bind
find-bind ip jp id r = lookup-insert ip jp id r.m

pub find-unbind :
    (ip jp : Text) (r : Registry) → find jp (unbind ip r) ≡ (if ip == jp then none else find jp r)
unfolding find unbind
find-unbind ip jp r = lookup-delete ip jp r.m

pub find-new : (ip : Text) → find ip new_registry ≡ none
unfolding find new_registry lookup
find-new ip = refl
