-- ===== src/Profiler/Sampler/Ends.antt =====
-- That a stop ends: the thread that it waits for returns (src/profiler.c).
use hifetch.Common.{
  Real, ℕ, suc, ◌≤◌, ◌≡◌, ◌≢◌, refl, subst⁻¹, Bool, true, false, List, [], ◌∷◌, Option, none, some,
  arith, is_some, Leaves,
}
use hifetch.Profiler.Sampler.{
  Place, absent, testing, sampling, dozing, sleeping, ended, Main, System, Call, is_free,
  profiling_thread_func, called, Reachable, call,
}
use hifetch.Profiler.Sampler.Sound.{Sound, Reachable-Sound, sys, call-is_some, sample-is_some}
use hifetch.Profiler.State.{SystemProfiler, Reading}

-- While someone waits, a turn is a statement of the sampling loop, or a call of another thread.
pub data Turn (D : Type 0) : Type 0 where
  loops : Reading D → Reading D → Option D → Turn D
  calls : Call D → Turn D

unfoldable pub count_loops : {D : Type 0} → List (Turn D) → ℕ
count_loops [] = 0
count_loops (loops r r' freeram ∷ turns) = suc (count_loops turns)
count_loops (calls c ∷ turns) = count_loops turns

-- The statements that are left once the flag is down.
abbrev left : Place → ℕ
left absent = 0
left testing = 1
left sampling = 4
left dozing = 3
left sleeping = 2
left ended = 0

left_at_most : (place : Place) → left place ≤ 4
left_at_most absent = omega arith
left_at_most testing = omega arith
left_at_most sampling = omega arith
left_at_most dozing = omega arith
left_at_most sleeping = omega arith
left_at_most ended = omega arith

module _ {D : Type 0} (k : Real D) where
  unfoldable pub run_turns : List (Turn D) → System D → Option (System D)
  run_turns [] s = some s
  run_turns (loops r r' freeram ∷ turns) s = elim (profiling_thread_func k r r' freeram s) [
    | some s' ↦ run_turns turns s'
    | none ↦ none
  ]
  run_turns (calls c ∷ turns) s = run_turns turns (called k c s)

  Ended : Main → System D → Type 0
  Ended main s = (s.place ≡ ended) × (s.running ≡ false) × (s.main ≡ main)

  ends_in :
      (turns : List (Turn D)) (o : Option (SystemProfiler D)) (place : Place) (main : Main)
      → is_some o ≡ true
      → place ≢ absent
      → left place ≤ count_loops turns
      → Leaves (run_turns turns (sys k o false place main)) (Ended main)
  unfolding run_turns profiling_thread_func called count_loops Leaves Ended
  ends_in [] o absent main has there enough = absurd (there refl)
  ends_in [] o testing main has there enough = absurd (omega arith)
  ends_in [] o sampling main has there enough = absurd (omega arith)
  ends_in [] o dozing main has there enough = absurd (omega arith)
  ends_in [] o sleeping main has there enough = absurd (omega arith)
  ends_in [] o ended main has there enough = (refl, refl, refl)
  ends_in (calls c ∷ turns) o place main has there enough =
      ends_in turns (call k c o) place main (rw (call-is_some k c o) has) there enough
  ends_in (loops r r' freeram ∷ turns) o absent main has there enough = absurd (there refl)
  ends_in (loops r r' freeram ∷ turns) o testing main has there enough =
      ends_in turns o ended main has (λ e. ground (arith, e)) (omega arith)
  ends_in (loops r r' freeram ∷ turns) o sampling main has there enough =
      ends_in turns _ dozing main (rw (sample-is_some k r r' freeram o) has)
        (λ e. ground (arith, e)) (omega arith)
  ends_in (loops r r' freeram ∷ turns) none dozing main has there enough = ground arith
  ends_in (loops r r' freeram ∷ turns) (some p) dozing main has there enough =
      ends_in turns (some p) sleeping main has (λ e. ground (arith, e)) (omega arith)
  ends_in (loops r r' freeram ∷ turns) o sleeping main has there enough =
      ends_in turns o testing main has (λ e. ground (arith, e)) (omega arith)
  ends_in (loops r r' freeram ∷ turns) o ended main has there enough =
      ends_in turns o ended main has there (omega arith)

  waits :
      (o : Option (SystemProfiler D)) (run : Bool) (place : Place) (main : Main)
      → is_free main ≡ false
      → Sound (sys k o run place main)
      → (is_some o ≡ true) × (run ≡ false)
  unfolding Sound
  waits none true place main w h = ground arith
  waits none false place main w h = ground arith
  waits (some p) true place main w h = ground arith
  waits (some p) false place main w h = (refl, refl)

  -- In every reachable state in which the thread that stops the profiler waits in `pthread_join`, and
  -- in which the sampling thread was created, four statements of the sampling loop, with any calls of
  -- other threads between them, end the sampling thread, and the one that waits still does.
  pub run_turns-Ended :
      (s : System D)
      → Reachable k s
      → is_free s.main ≡ false
      → s.place ≢ absent
      → (turns : List (Turn D)) → 4 ≤ count_loops turns
      → Leaves
          (run_turns turns s)
          (λ s'. (s'.place ≡ ended) × (s'.running ≡ false) × (s'.main ≡ s.main))
  unfolding Ended
  run_turns-Ended s reach w there turns enough =
      let (has, down) = waits s.profiler s.running s.place s.main w (Reachable-Sound k s reach) in
      subst⁻¹ (λ run. Leaves (run_turns turns (sys k s.profiler run s.place s.main)) (Ended s.main))
        down
        (ends_in turns s.profiler s.place s.main has there (omega (arith, left_at_most s.place)))
