-- ===== src/Memory/Tracker/Live.antt =====
-- The live entries of the tracker's table (src/memory_opt.c): the first `count`, weighed.
use hifetch.Common.{
  ℕ, zero, suc, ◌+◌, ◌-◌, ◌≤◌, ◌<◌, ◌≡◌, refl, List, [], ◌∷◌, none, some, arith, if◌then◌else◌,
  ◌==◌, get_or, set, length, Bool-cases, length-set, get_or-set_self, ap, ◌∙◌, inl, inr,
}
use native.Mathlib.Decide.{dec_lt}
use hifetch.Memory.Tracker.{MemoryLeak, no_leak, find_leak}

-- The sum of a weight over the first `n` entries: over all weights, this is the table as a multiset.
unfoldable pub weigh : (MemoryLeak → ℕ) → ℕ → List MemoryLeak → ℕ
weigh f zero xs = 0
weigh f (suc n) [] = 0
weigh f (suc n) (x ∷ xs) = f x + weigh f n xs

module _ (f : MemoryLeak → ℕ) where
  pub weigh-set_outside :
      (n i : ℕ) (xs : List MemoryLeak) (v : MemoryLeak)
      → n ≤ i
      → weigh f n (set xs i v) ≡ weigh f n xs
  unfolding weigh
  weigh-set_outside zero i xs v h = refl
  weigh-set_outside (suc n) i [] v h = refl
  weigh-set_outside (suc n) zero (x ∷ xs) v h = absurd (omega arith)
  weigh-set_outside (suc n) (suc i) (x ∷ xs) v h =
      omega (arith, weigh-set_outside n i xs v (omega arith))

  pub weigh-set_inside :
      (n i : ℕ) (xs : List MemoryLeak) (v : MemoryLeak)
      → i < n
      → n ≤ length xs
      → weigh f n (set xs i v) + f (get_or xs i no_leak) ≡ weigh f n xs + f v
  unfolding weigh
  weigh-set_inside zero i xs v h w = absurd (omega arith)
  weigh-set_inside (suc n) i [] v h w = absurd (omega arith)
  weigh-set_inside (suc n) zero (x ∷ xs) v h w = omega arith
  weigh-set_inside (suc n) (suc i) (x ∷ xs) v h w =
      omega (arith, weigh-set_inside n i xs v (omega arith) (omega arith))

  pub weigh-suc :
      (n : ℕ) (xs : List MemoryLeak)
      → n < length xs
      → weigh f (suc n) xs ≡ weigh f n xs + f (get_or xs n no_leak)
  unfolding weigh
  weigh-suc n [] h = absurd (omega arith)
  weigh-suc zero (x ∷ xs) h = omega arith
  weigh-suc (suc n) (x ∷ xs) h = omega (arith, weigh-suc n xs (omega arith))

  -- Removal by moving the last entry.
  pub weigh-swap :
      (n i : ℕ) (xs : List MemoryLeak)
      → i ≤ n
      → n < length xs
      → weigh f n (set xs i (get_or xs n no_leak)) + f (get_or xs i no_leak) ≡ weigh f (suc n) xs
  weigh-swap n i xs h w = elim (dec_lt i n) [
    | yes p ↦
        omega
          (arith, weigh-suc n xs w, weigh-set_inside n i xs (get_or xs n no_leak) p (omega arith))
    | no p ↦
        let same : i ≡ n = omega arith in
        rw same (
          omega
            (arith, weigh-suc n xs w, weigh-set_outside n n xs (get_or xs n no_leak) (omega arith)))
  ]

  -- A new entry behind the live ones.
  pub weigh-grow :
      (n : ℕ) (xs : List MemoryLeak) (v : MemoryLeak)
      → n < length xs
      → weigh f (n + 1) (set xs n v) ≡ weigh f n xs + f v
  weigh-grow n xs v h =
      let next : n + 1 ≡ suc n = omega arith in
      let read : f (get_or (set xs n v) n no_leak) ≡ f v =
        ap f (get_or-set_self xs n v no_leak h) in
      rw next (
        omega (
          arith,
          weigh-suc n (set xs n v) (rw length-set h),
          weigh-set_outside n n xs v (omega arith),
        ))

  -- `weigh-swap` at a count from which one is taken.
  pub weigh-shrink :
      (c i : ℕ) (xs : List MemoryLeak)
      → i < c
      → c ≤ length xs
      → weigh f (c - 1) (set xs i (get_or xs (c - 1) no_leak)) + f (get_or xs i no_leak)
        ≡ weigh f c xs
  weigh-shrink c i xs h w =
      let count : suc (c - 1) ≡ c = omega arith in
      weigh-swap (c - 1) i xs (omega arith) (omega arith) ∙ ap (λ k. weigh f k xs) count

-- The walk stops inside the live part, at an entry with the pointer.
pub find_leak-some :
    (ptr : ℕ) (xs : List MemoryLeak) (n i j : ℕ)
    → find_leak ptr xs n i ≡ some j
    → (k : ℕ) × (j ≡ i + k) × (k < n) × ((get_or xs k no_leak).ptr ≡ ptr)
unfolding find_leak
find_leak-some ptr [] n i j e = ground arith
find_leak-some ptr (x ∷ xs) zero i j e = ground arith
find_leak-some ptr (x ∷ xs) (suc n) i j e = elim (Bool-cases (x.ptr == ptr)) [
  | inl h ↦ (0, ground arith, omega arith, ground arith)
  | inr h ↦
      let rest : find_leak ptr xs n (i + 1) ≡ some j = ground arith in
      let (k, at, low, found) = find_leak-some ptr xs n (i + 1) j rest in
      (suc k, omega arith, omega arith, found)
]

-- How many of the first `n` entries have the pointer.
abbrev pub has_ptr : ℕ → MemoryLeak → ℕ
has_ptr ptr leak = if leak.ptr == ptr then 1 else 0

-- The walk misses only what is not there.
pub find_leak-none :
    (ptr : ℕ) (xs : List MemoryLeak) (n i : ℕ)
    → find_leak ptr xs n i ≡ none
    → weigh (has_ptr ptr) n xs ≡ 0
unfolding find_leak weigh
find_leak-none ptr [] zero i e = refl
find_leak-none ptr [] (suc n) i e = refl
find_leak-none ptr (x ∷ xs) zero i e = refl
find_leak-none ptr (x ∷ xs) (suc n) i e = ground (arith, find_leak-none ptr xs n (i + 1))
