-- ===== src/Common/Tables.antt =====
-- An array with the number of its slots in use, and the loops that fill one.
use Prim.Native.Nat.{ℕ, zero, suc, ◌≤◌, ◌<◌}
use mathlib.Core.Path.{◌≡◌, refl, ap, ◌∙◌}
use mathlib.Core.Bool.{Bool, true, false}
use mathlib.Core.Option.{Option, none, some}
use mathlib.Core.List.{List, [], ◌∷◌, ◌++◌}
use native.Mathlib.Omega.{arith}
use hifetch.Common.Lists.{length, take, set, get_or, length-set}
use hifetch.Common.Tests.{ltb, if◌then◌else◌}

pub record Table (A : Type 0) : Type 0 where
  pub slots : List A
  pub count : ℕ

-- The next slot is written, and counted if `counted` says so.
abbrev pub write : {A : Type 0} → Bool → A → Table A → Table A
write counted a table = record {
  slots = set table.slots table.count a;
  count = if counted then suc table.count else table.count;
}

abbrev pub put : {A : Type 0} → Option A → Table A → Table A
put none table = table
put (some a) table = write true a table

-- The loop over a list of entries until `limit` slots are used. `one` gives what the next slot holds
-- after an entry and whether it is counted; a state goes along.
unfoldable pub visit :
    {A B S : Type 0} → ℕ → A → (B → A → S → A × Bool × S) → List B → Table A → S → Table A × S
visit limit none_yet one [] table s = (table, s)
visit limit none_yet one (entry ∷ entries) table s =
    let (a, counted, s') = one entry (get_or table.slots table.count none_yet) s in
    let rest = visit limit none_yet one entries (write counted a table) s' in
    if ltb table.count limit then rest else (table, s)

-- The slots in use.
abbrev pub used : {A : Type 0} → Table A → List A
used table = take table.count table.slots

-- An array of `limit` slots, at most all of which are in use.
pub record IsWithin {A : Type 0} (limit : ℕ) (table : Table A) : Type 0 where
  pub room : length table.slots ≡ limit
  pub few : table.count ≤ limit

module _ {A : Type 0} where
  pub write-IsWithin :
      (limit : ℕ) (counted : Bool) (a : A) (table : Table A)
      → table.count < limit
      → IsWithin limit table
      → IsWithin limit (write counted a table)
  write-IsWithin limit true a table free h = record {
    room = length-set table.slots table.count a ∙ h.room;
    few = omega (arith, free);
  }
  write-IsWithin limit false a table free h = record {
    room = length-set table.slots table.count a ∙ h.room;
    few = h.few;
  }

  pub put-IsWithin :
      (limit : ℕ) (filled : Option A) (table : Table A)
      → table.count < limit
      → IsWithin limit table
      → IsWithin limit (put filled table)
  put-IsWithin limit none table free h = h
  put-IsWithin limit (some a) table free h = write-IsWithin limit true a table free h

  -- The count is reset before a loop.
  pub restart :
      (limit : ℕ) (table : Table A)
      → IsWithin limit table
      → IsWithin limit (record table { count = 0 })
  restart limit table h = record { room = h.room; few = omega arith }

  pub take-set : (xs : List A) (i : ℕ) (a : A) → take i (set xs i a) ≡ take i xs
  take-set [] i a = refl
  take-set (x ∷ xs) zero a = refl
  take-set (x ∷ xs) (suc i) a = ap (λ r. x ∷ r) (take-set xs i a)

  pub take_next :
      (xs : List A) (i : ℕ) (a : A)
      → i < length xs
      → take (suc i) (set xs i a) ≡ take i xs ++ a ∷ []
  take_next [] i a h = absurd (omega arith)
  take_next (x ∷ xs) zero a h = refl
  take_next (x ∷ xs) (suc i) a h = ap (λ r. x ∷ r) (take_next xs i a (omega arith))

  pub take-nil : (n : ℕ) → take {A = A} n [] ≡ []
  take-nil zero = refl
  take-nil (suc n) = refl
