-- ===== src/Profiler/Sampler/Safety.antt =====
-- That the profiler's own thread never reads a freed profiler (src/profiler.c).
use hifetch.Common.{Real, ◌≡◌, refl, Bool, true, Option, none, some, arith, is_some}
use hifetch.Profiler.Sampler.{
  Place, absent, testing, sampling, dozing, sleeping, ended, Main, System, profiling_thread_func,
  Reachable,
}
use hifetch.Profiler.Sampler.Sound.{Sound, Reachable-Sound, sys}
use hifetch.Profiler.State.{SystemProfiler, Reading}

module _ {D : Type 0} (k : Real D) where
  turn-is_some :
      (r r' : Reading D) (freeram : Option D) (o : Option (SystemProfiler D)) (run : Bool)
      (place : Place) (main : Main)
      → Sound (sys k o run place main)
      → is_some (profiling_thread_func k r r' freeram (sys k o run place main)) ≡ true
  unfolding profiling_thread_func Sound
  turn-is_some r r' freeram o run absent main h = refl
  turn-is_some r r' freeram o run testing main h = refl
  turn-is_some r r' freeram o run sampling main h = refl
  turn-is_some r r' freeram none run dozing main h = ground arith
  turn-is_some r r' freeram (some p) run dozing main h = refl
  turn-is_some r r' freeram o run sleeping main h = refl
  turn-is_some r r' freeram o run ended main h = refl

  -- In every state that starts, stops, frees, calls and statements of the sampling loop lead to, in
  -- any order, the next statement of the sampling loop does not dereference a null profiler.
  pub profiling_thread_func-is_some :
      (s : System D)
      → Reachable k s
      → (r r' : Reading D) (freeram : Option D)
      → is_some (profiling_thread_func k r r' freeram s) ≡ true
  profiling_thread_func-is_some s reach r r' freeram =
      turn-is_some r r' freeram s.profiler s.running s.place s.main (Reachable-Sound k s reach)
