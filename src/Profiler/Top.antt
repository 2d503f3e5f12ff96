-- ===== src/Profiler/Top.antt =====
-- What the report lists (src/profiler.c, `generate_profile_report`).
use hifetch.Common.{
  Real, ◌≤◌, ◌≡◌, refl, sym, ap, subst, ◌∙◌, inl, inr, List, [], ◌∷◌, ◌++◌, arith, if◌then◌else◌,
  ltb, ltb→lt, length, take, take_all, take-append, take_again, length-take, length-append,
  Bool-cases,
}
use hifetch.Profiler.Report.{collect_functions, collect_threads, sorted_functions, top_functions}
use hifetch.Profiler.Sorting.{IsOrder, IsDescending, bubble_sort_lem}
use hifetch.Profiler.State.{FunctionProfile, ThreadProfile, SystemProfiler, max_functions}
use mathlib.Core.List.{Perm, append-nil, append_assoc}

-- The functions of all threads, thread by thread.
unfoldable pub functions_in : {D : Type 0} → List (ThreadProfile D) → List (FunctionProfile D)
functions_in [] = []
functions_in (t ∷ threads) = t.functions ++ functions_in threads

module _ {D : Type 0} where
  collect_functions_lem :
      (fs found : List (FunctionProfile D))
      → length found ≤ max_functions
      → collect_functions fs found ≡ take max_functions (found ++ fs)
  unfolding collect_functions
  collect_functions_lem [] found h = sym (
      take_all max_functions (found ++ []) (omega (arith, length-append found []))
      ∙ append-nil found)
  collect_functions_lem (f ∷ fs) found h = elim (Bool-cases (ltb (length found) max_functions)) [
    | inl room ↦ rw room (
        collect_functions_lem fs (found ++ f ∷ [])
          (omega (arith, length-append found (f ∷ []), ltb→lt (length found) max_functions room))
        ∙ ap (take max_functions) (append_assoc found (f ∷ []) fs))
    | inr full ↦
        let n : length found ≡ max_functions = ground (arith, full, h) in
        rw full (sym (subst (λ m. take m (found ++ f ∷ fs) ≡ found) n (take-append found (f ∷ fs))))
  ]

  collect_threads_lem :
      (threads : List (ThreadProfile D)) (found : List (FunctionProfile D))
      → length found ≤ max_functions
      → collect_threads threads found ≡ take max_functions (found ++ functions_in threads)
  unfolding collect_threads functions_in
  collect_threads_lem [] found h = sym (
      take_all max_functions (found ++ []) (omega (arith, length-append found []))
      ∙ append-nil found)
  collect_threads_lem (t ∷ threads) found h =
      let here = collect_functions_lem t.functions found h in
      let short : length (collect_functions t.functions found) ≤ max_functions =
        omega (arith, ap length here, length-take max_functions (found ++ t.functions)) in
      collect_threads_lem threads (collect_functions t.functions found) short
      ∙ ap (λ l. take max_functions (l ++ functions_in threads)) here
      ∙ take_again max_functions (found ++ t.functions) (functions_in threads)
      ∙ ap (take max_functions) (append_assoc found t.functions (functions_in threads))

printed :
    {A : Type 0} → (s : List A) → take (if ltb (length s) 10 then length s else 10) s ≡ take 10 s
printed s = elim (Bool-cases (ltb (length s) 10)) [
  | inl few ↦
      let short : length s ≤ 10 = ground (arith, ltb→lt (length s) 10 few) in
      rw few (take_all (length s) s (omega arith) ∙ sym (take_all 10 s short))
  | inr many ↦ rw many refl
]

module _ {D : Type 0} (k : Real D) where
  -- Where the order of the times is that of numbers, the report lists the first ten of an array in
  -- which no total time is less than one after it, and which holds the first 512 functions of all
  -- threads, thread by thread, each as often as they do.
  pub top_functions-IsDescending :
      (p : SystemProfiler D)
      → IsOrder k
      → IsDescending k (λ (f : FunctionProfile D). f.total_time) (sorted_functions k p)
        × Perm (sorted_functions k p) (take 512 (functions_in p.threads))
        × (top_functions k p ≡ take 10 (sorted_functions k p))
  unfolding sorted_functions top_functions
  top_functions-IsDescending p o =
      let found = collect_threads p.threads [] in
      let (descending, permuted) =
        bubble_sort_lem k (λ (f : FunctionProfile D). f.total_time) o found in
      (
        descending,
        subst (Perm (sorted_functions k p)) (collect_threads_lem p.threads [] (omega arith))
            permuted,
        printed (sorted_functions k p),
      )
