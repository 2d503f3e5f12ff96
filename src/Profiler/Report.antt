-- ===== src/Profiler/Report.antt =====
-- The functions that the report lists (src/profiler.c, `generate_profile_report`).
use hifetch.Common.{Real, ℕ, zero, suc, ◌-◌, List, [], ◌∷◌, ◌++◌, if◌then◌else◌, ltb, length, take}
use hifetch.Profiler.State.{
  FunctionProfile, ProfileEvent, ThreadProfile, SystemProfiler, max_functions,
}

module _ {D : Type 0} where
  -- The loop over the functions of one thread, which stops where the array is full.
  unfoldable pub collect_functions :
      List (FunctionProfile D) → List (FunctionProfile D) → List (FunctionProfile D)
  collect_functions [] found = found
  collect_functions (f ∷ fs) found =
      let rest = collect_functions fs (found ++ f ∷ []) in
      if ltb (length found) max_functions then rest else found

  unfoldable pub collect_threads :
      List (ThreadProfile D) → List (FunctionProfile D) → List (FunctionProfile D)
  collect_threads [] found = found
  collect_threads (t ∷ threads) found =
      collect_threads threads (collect_functions t.functions found)

  -- `max_memory` after the loop over the events.
  unfoldable pub peak_memory : List (ProfileEvent D) → ℕ → ℕ
  peak_memory [] max_memory = max_memory
  peak_memory (e ∷ events) max_memory =
      peak_memory events (if ltb max_memory e.memory_usage then e.memory_usage else max_memory)

module _ {D : Type 0} (k : Real D) {A : Type 0} (total_time : A → D) where
  -- The inner loop over the array from an index on, with `n` rounds left: each round compares the
  -- entry with the next one and swaps them if the next is greater.
  unfoldable pub bubble_pass : ℕ → List A → List A
  bubble_pass zero fs = fs
  bubble_pass (suc n) [] = []
  bubble_pass (suc n) (f ∷ []) = f ∷ []
  bubble_pass (suc n) (f ∷ g ∷ fs) =
      let swap = k.less (total_time f) (total_time g) in
      (if swap then g else f) ∷ bubble_pass n ((if swap then f else g) ∷ fs)

  -- The outer loop: the inner one runs over one entry less each time.
  unfoldable pub bubble_sort : ℕ → List A → List A
  bubble_sort zero fs = fs
  bubble_sort (suc n) fs = bubble_sort n (bubble_pass (suc n) fs)

module _ {D : Type 0} (k : Real D) where
  unfoldable pub sorted_functions : SystemProfiler D → List (FunctionProfile D)
  sorted_functions p =
      let found = collect_threads p.threads [] in
      bubble_sort k (λ (f : FunctionProfile D). f.total_time) (length found - 1) found

  -- The functions that are printed.
  unfoldable pub top_functions : SystemProfiler D → List (FunctionProfile D)
  top_functions p =
      let sorted = sorted_functions p in
      take (if ltb (length sorted) 10 then length sorted else 10) sorted
