-- ===== src/Performance/Repeats.antt =====
-- What a name that is used again measures (src/performance.c).
use hifetch.Common.{
  Real, ℕ, ◌≤◌, ◌<◌, ◌≡◌, refl, sym, ap, subst, ◌∙◌, inl, inr, true, false, List, [], ◌∷◌, ◌++◌,
  map, none, some, arith, leb, length, str_eq_refl, take, take_all, Bool-cases,
}
use hifetch.Performance.Benchmarks.{
  Benchmark, is_called, start_benchmark, end_benchmark, duration_of, runs,
}
use hifetch.Profiler.Slots.{first}

module _ {D : Type 0} (k : Real D) (name : List ℕ) where
  -- The first benchmark of the name started at a time.
  Began : D → List (Benchmark D) → Type 0
  Began began benchmarks =
      (b : Benchmark D) × (first (is_called name) benchmarks ≡ some b) × (b.start_time ≡ began)

  first-append :
      (benchmarks : List (Benchmark D)) (b new : Benchmark D)
      → first (is_called name) benchmarks ≡ some b
      → first (is_called name) (benchmarks ++ new ∷ []) ≡ some b
  unfolding first
  first-append [] b new h = ground arith
  first-append (c ∷ benchmarks) b new h = elim (Bool-cases (is_called name c)) [
    | inl e ↦ rw e (ground (arith, h, e))
    | inr e ↦ rw e (first-append benchmarks b new (ground (arith, h, e)))
  ]

  first-append_new :
      (benchmarks : List (Benchmark D)) (new : Benchmark D)
      → first (is_called name) benchmarks ≡ none
      → is_called name new ≡ true
      → first (is_called name) (benchmarks ++ new ∷ []) ≡ some new
  unfolding first
  first-append_new [] new h called = rw called refl
  first-append_new (c ∷ benchmarks) new h called = elim (Bool-cases (is_called name c)) [
    | inl e ↦ ground (arith, h, e)
    | inr e ↦ rw e (first-append_new benchmarks new (ground (arith, h, e)) called)
  ]

  start-Began :
      (now began : D) (benchmarks : List (Benchmark D))
      → Began began benchmarks
      → Began began (start_benchmark k name now benchmarks)
  unfolding start_benchmark Began
  start-Began now began benchmarks (b, at, same) = elim (Bool-cases (leb 64 (length benchmarks))) [
    | inl full ↦ rw full (b, at, same)
    | inr room ↦ rw room (b, first-append benchmarks b _ at, same)
  ]

  end-Began :
      (now began : D) (benchmarks : List (Benchmark D))
      → Began began benchmarks
      → Began began (end_benchmark k name now benchmarks)
        × (duration_of k name (end_benchmark k name now benchmarks) ≡ some (k.sub now began))
  unfolding end_benchmark duration_of Began first
  end-Began now began [] (b, at, same) = ground arith
  end-Began now began (c ∷ benchmarks) (b, at, same) = elim (Bool-cases (is_called name c)) [
    | inl e ↦
        let here : c ≡ b = ground (arith, at, e) in
        let from : c.start_time ≡ began = ap (λ (x : Benchmark D). x.start_time) here ∙ same in
        rw (e, e) ((_, refl, from), ap (λ t. some (k.sub now t)) from)
    | inr e ↦
        let later : first (is_called name) benchmarks ≡ some b = ground (arith, at, e) in
        rw (e, e) (end-Began now began benchmarks (b, later, same))
  ]

  again :
      (began : D) (times : List (D × D)) (benchmarks : List (Benchmark D))
      → Began began benchmarks
      → (runs k name times benchmarks).0 ≡ map (λ (t : D × D). some (k.sub t.1 began)) times
  unfolding runs
  again began [] benchmarks h = refl
  again began ((before, after) ∷ times) benchmarks h =
      let (still, measured) =
        end-Began after began (start_benchmark k name before benchmarks)
          (start-Began before began benchmarks h) in
      rw measured (ap (λ l. some (k.sub after began) ∷ l) (again began times _ still))

  -- In a table with room and without a benchmark of the name, which has at most 63 bytes, each run of
  -- the loop is measured from the start of the first one, not from its own: the durations count the
  -- runs before it too.
  pub runs-first :
      (before after : D) (times : List (D × D)) (benchmarks : List (Benchmark D))
      → first (is_called name) benchmarks ≡ none
      → length benchmarks < 64
      → length name ≤ 63
      → (runs k name ((before, after) ∷ times) benchmarks).0
        ≡ map (λ (t : D × D). some (k.sub t.1 before)) ((before, after) ∷ times)
  unfolding runs start_benchmark Began
  runs-first before after times benchmarks absent room short =
      let new : Benchmark D = record {
        name = take 63 name;
        start_time = before;
        end_time = k.zero;
        duration = k.zero;
      } in
      let has_room : leb 64 (length benchmarks) ≡ false = ground (arith, room) in
      let called : is_called name new ≡ true = rw (take_all 63 name short) (str_eq_refl name) in
      let table : start_benchmark k name before benchmarks ≡ benchmarks ++ new ∷ [] =
        rw has_room refl in
      let began : Began before (start_benchmark k name before benchmarks) =
        subst (Began before) (sym table)
          (new, first-append_new benchmarks new absent called, refl) in
      let (still, measured) =
        end-Began after before (start_benchmark k name before benchmarks) began in
      rw measured (ap (λ l. some (k.sub after before) ∷ l) (again before times _ still))
