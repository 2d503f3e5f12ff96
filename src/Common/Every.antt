-- ===== src/Common/Every.antt =====
-- What holds of every element of a list, and the value in an option.
use mathlib.Core.Path.{◌≡◌, ap}
use mathlib.Core.Option.{none, some}
use mathlib.Core.List.{List, [], ◌∷◌, ◌++◌}

abbrev pub All : {A : Type 0} → (A → Type 0) → List A → Type 0
All P [] = Unit {0}
All P (x ∷ xs) = P x × All P xs

module _ {A : Type 0} where
  pub append-All : (P : A → Type 0) (xs : List A) (x : A) → All P xs → P x → All P (xs ++ x ∷ [])
  append-All P [] x h px = (px, tt)
  append-All P (y ∷ xs) x (py, h) px = (py, append-All P xs x h px)

pub some_inj : {A : Type 0} {a b : A} → some a ≡ some b → a ≡ b
some_inj {a} e = ap (λ o. elim o [ some x ↦ x | none ↦ a ]) e
