-- ===== src/Registry/Installer/Placeholders.antt =====
-- A refresh keeps the placeholders that sandboxes and secrets know.
use gigmcp.Base.{Text, List, [], ◌∷◌, ◌≡◌, some}
use gigmcp.Store.Types.{Injection}
use gigmcp.Registry.Installer.{Descriptor, prior_placeholder, injection_of}

-- Each injection is made from its credential, with the placeholder that an earlier one of its id
-- had.
abbrev pub IsBuilt : List Injection → List Descriptor → List Injection → Type 0
IsBuilt prior [] [] = Unit
IsBuilt prior [] (inj ∷ injs) = ⊥
IsBuilt prior (c ∷ cs) [] = ⊥
IsBuilt prior (c ∷ cs) (inj ∷ injs) =
    ((inj ≡ injection_of c inj.placeholder)
      × ((ph : Text) → prior_placeholder c.id prior ≡ some ph → inj.placeholder ≡ ph))
    × IsBuilt prior cs injs
