-- ===== src/Profiler/Slots/Table.antt =====
-- The search for an entry of a table, with a new entry where there is none (the loops over
-- `threads` and `functions` in src/profiler.c). A table is the list of the entries in use.
use hifetch.Common.{
  ℕ, suc, Bool, List, [], ◌∷◌, ◌++◌, Option, none, some, if◌then◌else◌, ltb, get_elem?, set, length,
}
use mathlib.Core.Option

module _ {A : Type 0} where
  -- `for (i = 0; i < count; i++) if (p(table[i])) { index = i; break; }`
  unfoldable pub find_index : (A → Bool) → List A → Option ℕ
  find_index p [] = none
  find_index p (x ∷ xs) =
      let rest = Option.map suc (find_index p xs) in if p x then some 0 else rest

  -- `if (index == -1 && count < max) index = count++`
  unfoldable pub slot : (A → Bool) → ℕ → A → List A → Option ℕ × List A
  slot p max fresh xs = elim (find_index p xs) [
    | some i ↦ (some i, xs)
    | none ↦ if ltb (length xs) max then (some (length xs), xs ++ fresh ∷ []) else (none, xs)
  ]

  -- A change of the entry at an index.
  unfoldable pub modify : ℕ → (A → A) → List A → List A
  modify i f xs = elim (get_elem? xs i) [ some x ↦ set xs i (f x) | none ↦ xs ]

  unfoldable pub modify_slot : (A → A) → Option ℕ × List A → List A
  modify_slot f (some i, xs) = modify i f xs
  modify_slot f (none, xs) = xs

  unfoldable pub slot_at : Option ℕ × List A → Option A
  slot_at (some i, xs) = get_elem? xs i
  slot_at (none, xs) = none

  -- The first entry that passes a test, and a change of it in one walk.
  unfoldable pub first : (A → Bool) → List A → Option A
  first p [] = none
  first p (x ∷ xs) = if p x then some x else first p xs

  abbrev pub or_else : A → Option A → A
  or_else d none = d
  or_else d (some x) = x

  unfoldable pub upsert : (A → Bool) → Bool → A → (A → A) → List A → List A
  upsert p room fresh f [] = if room then f fresh ∷ [] else []
  upsert p room fresh f (x ∷ xs) = if p x then f x ∷ xs else x ∷ upsert p room fresh f xs
