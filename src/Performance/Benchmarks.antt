-- ===== src/Performance/Benchmarks.antt =====
-- The table of benchmarks (src/performance.c, `start_benchmark` and `end_benchmark`) and the
-- comparison that uses it (`compare_with_fastfetch`). The table is the list of the entries in use.
use hifetch.Common.{
  codes, Real, ℕ, Bool, List, [], ◌∷◌, ◌++◌, Option, if◌then◌else◌, leb, length, str_eq, take,
}
use hifetch.Profiler.Slots.{first}
use mathlib.Core.Option

pub record Benchmark (D : Type 0) : Type 0 where
  pub name : List ℕ
  pub start_time : D
  pub end_time : D
  pub duration : D

abbrev pub max_benchmarks : ℕ
max_benchmarks = 64

module _ {D : Type 0} where
  abbrev pub is_called : List ℕ → Benchmark D → Bool
  is_called name b = str_eq b.name name

module _ {D : Type 0} (k : Real D) where
  -- `strncpy` keeps 63 bytes of the name.
  unfoldable pub start_benchmark : List ℕ → D → List (Benchmark D) → List (Benchmark D)
  start_benchmark name now benchmarks =
      if leb max_benchmarks (length benchmarks)
      then benchmarks
      else benchmarks
        ++ (record { name = take 63 name; start_time = now; end_time = k.zero; duration = k.zero })
          ∷ []

  unfoldable pub end_benchmark : List ℕ → D → List (Benchmark D) → List (Benchmark D)
  end_benchmark name now [] = []
  end_benchmark name now (b ∷ benchmarks) =
      let rest = end_benchmark name now benchmarks in
      if is_called name b
      then record b { end_time = now; duration = k.sub now b.start_time } ∷ benchmarks
      else b ∷ rest

  -- The loop that looks a duration up; `none` where the array keeps what was in it.
  unfoldable pub duration_of : List ℕ → List (Benchmark D) → Option D
  duration_of name benchmarks =
      Option.map (λ (b : Benchmark D). b.duration) (first (is_called name) benchmarks)

  -- One loop of the comparison: each run has a time before the program and one after it.
  unfoldable pub runs :
      List ℕ → List (D × D) → List (Benchmark D) → List (Option D) × List (Benchmark D)
  runs name [] benchmarks = ([], benchmarks)
  runs name ((before, after) ∷ times) benchmarks =
      let ended = end_benchmark name after (start_benchmark name before benchmarks) in
      let (durations, last) = runs name times ended in (duration_of name ended ∷ durations, last)

-- "sysfetch_total", "sysfetch_run" and "fastfetch_run"
abbrev pub run_suffix : List ℕ
run_suffix = codes "fetch_run"

abbrev pub sysfetch_total : List ℕ
sysfetch_total = codes "sysfetch_total"

abbrev pub sysfetch_run : List ℕ
sysfetch_run = b's' ∷ b'y' ∷ b's' ∷ run_suffix

abbrev pub fastfetch_run : List ℕ
fastfetch_run = b'f' ∷ b'a' ∷ b's' ∷ b't' ∷ run_suffix

-- `average` is the mean of five values, with what the arrays held for a missing one.
module _ {D : Type 0} (k : Real D) (average : List (Option D) → D) where
  unfoldable pub compare_with_fastfetch :
      D → List (D × D) → List (D × D) → List (Benchmark D) → ℕ × List (Benchmark D)
  compare_with_fastfetch now sysfetch_times fastfetch_times benchmarks =
      let (sysfetch, between) =
        runs k sysfetch_run sysfetch_times (start_benchmark k sysfetch_total now benchmarks) in
      let (fastfetch, last) = runs k fastfetch_run fastfetch_times between in
      (if k.less (average sysfetch) (average fastfetch) then 1 else 0, last)
