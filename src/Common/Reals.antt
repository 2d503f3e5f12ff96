-- ===== src/Common/Reals.antt =====
-- A `double` as any type with the operations that the code uses.
use mathlib.Core.Bool.{Bool}

-- `zero` is 0, `huge` is 1e9, and `less` is `<`.
pub record Real (D : Type 0) : Type 0 where
  pub zero : D
  pub huge : D
  pub add : D → D → D
  pub sub : D → D → D
  pub less : D → D → Bool
