-- ===== src/Gateway/AuditingResolver/Order.antt =====
-- The audit table keeps the order in which the answers were given.
use gigmcp.Base.{List, [], ◌∷◌, ◌≡◌, ◌⊎◌}

-- One list within another, in its order.
abbrev pub Sub : {A : Type 0} → List A → List A → Type 0
Sub [] ys = Unit
Sub (x ∷ xs) [] = ⊥
Sub (x ∷ xs) (y ∷ ys) = ((x ≡ y) × Sub xs ys) ⊎ Sub (x ∷ xs) ys
