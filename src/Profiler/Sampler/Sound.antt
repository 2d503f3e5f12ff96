-- ===== src/Profiler/Sampler/Sound.antt =====
-- How the flag, the thread and the profiler agree (src/profiler.c).
use hifetch.Common.{
  Real, some_inj, ◌≡◌, refl, sym, subst, Bool, true, false, not, ◌&&◌, Option, none, some, arith,
  if◌then◌else◌, is_some,
}
use hifetch.Profiler.Calls.{
  profiler_init, profiler_reset, profile_function_enter, profile_function_exit,
  profile_thread_start, profile_thread_end, sample_system_state,
}
use hifetch.Profiler.Sampler.{
  Place, absent, testing, sampling, dozing, sleeping, ended, Main, free, stopping, cleaning, System,
  Call, enters, exits, starts, ends, resets, is_free, call, start_profiling_thread, profiler_start,
  joined, stop_profiling_thread, profiler_stop, profiler_cleanup, profiling_thread_func, called,
  Step, starting, stopping_it, freeing, joining, calling, running_on, Reachable, begun, stepped,
}
use hifetch.Profiler.State.{SystemProfiler, Reading}

-- The thread is in its loop.
abbrev pub is_looping : Place → Bool
is_looping absent = false
is_looping testing = true
is_looping sampling = true
is_looping dozing = true
is_looping sleeping = true
is_looping ended = false

-- Without a profiler nothing runs; with one, the flag is set only while no one waits, and the thread
-- is in its loop only while the flag is set or someone waits.
abbrev pub agree : Bool → Bool → Main → Bool → Bool
agree false run main loops = not run && is_free main && not loops
agree true true main loops = is_free main
agree true false main loops = if is_free main then not loops else true

module _ {D : Type 0} where
  unfoldable pub Sound : System D → Type 0
  Sound s = agree (is_some s.profiler) s.running s.main (is_looping s.place) ≡ true

module _ {D : Type 0} (k : Real D) where
  pub call-is_some : (c : Call D) (o : Option (SystemProfiler D)) → is_some (call k c o) ≡ is_some o
  unfolding call profile_function_enter profile_function_exit profile_thread_start
      profile_thread_end profiler_reset
  call-is_some (enters r name) none = refl
  call-is_some (enters r name) (some p) = refl
  call-is_some (exits r name) none = refl
  call-is_some (exits r name) (some p) = refl
  call-is_some (starts r name) none = refl
  call-is_some (starts r name) (some p) = refl
  call-is_some (ends r) none = refl
  call-is_some (ends r) (some p) = refl
  call-is_some resets none = refl
  call-is_some resets (some p) = refl

  pub sample-is_some :
      (r r' : Reading D) (freeram : Option D) (o : Option (SystemProfiler D))
      → is_some (sample_system_state k r r' freeram o) ≡ is_some o
  unfolding sample_system_state
  sample-is_some r r' freeram none = refl
  sample-is_some r r' freeram (some p) = refl

  abbrev pub sys : Option (SystemProfiler D) → Bool → Place → Main → System D
  sys o run place main = record { profiler = o; running = run; place = place; main = main }

  start-Sound :
      (created : Bool) (p : SystemProfiler D) (run : Bool) (place : Place)
      → Sound (start_profiling_thread k created (sys (some p) run place free))
  unfolding start_profiling_thread Sound
  start-Sound created p true place = refl
  start-Sound created p false place = refl

  profiler_start-Sound :
      (calloc created : Bool) (now now' : D) (o : Option (SystemProfiler D)) (run : Bool)
      (place : Place) (main : Main) (s' : System D)
      → main ≡ free
      → profiler_start k calloc created now now' (sys o run place main) ≡ some s'
      → Sound s'
  unfolding profiler_start profiler_init
  profiler_start-Sound calloc created now now' (some p) run place free s' idle e =
      subst Sound (some_inj e) (start-Sound created _ run place)
  profiler_start-Sound true created now now' none run place free s' idle e =
      subst Sound (some_inj e) (start-Sound created _ run place)
  profiler_start-Sound false created now now' none run place free s' idle e = ground arith
  profiler_start-Sound calloc created now now' o run place stopping s' idle e = ground (arith, idle)
  profiler_start-Sound calloc created now now' o run place cleaning s' idle e = ground (arith, idle)

  profiler_stop-Sound :
      (now : D) (o : Option (SystemProfiler D)) (run : Bool) (place : Place) (main : Main)
      → main ≡ free
      → Sound (sys o run place main)
      → Sound (profiler_stop k stopping now (sys o run place main))
        × Sound (profiler_cleanup k now (sys o run place main))
  unfolding profiler_stop profiler_cleanup stop_profiling_thread joined Sound
  profiler_stop-Sound now none run place free idle h = (h, h)
  profiler_stop-Sound now (some p) true place free idle h = (refl, refl)
  profiler_stop-Sound now (some p) false place free idle h = (h, h)
  profiler_stop-Sound now o run place stopping idle h = ground (arith, idle)
  profiler_stop-Sound now o run place cleaning idle h = ground (arith, idle)

  joined-Sound :
      (o : Option (SystemProfiler D)) (run : Bool) (main : Main)
      → Sound (sys o run ended main)
      → Sound (joined k main (sys o run ended main))
  unfolding joined Sound
  joined-Sound o run free h = h
  joined-Sound none run stopping h = ground arith
  joined-Sound none run cleaning h = ground arith
  joined-Sound (some p) true stopping h = ground arith
  joined-Sound (some p) true cleaning h = ground arith
  joined-Sound (some p) false stopping h = refl
  joined-Sound (some p) false cleaning h = refl

  agree_stop :
      (has run : Bool) (main : Main)
      → agree has run main true ≡ true
      → agree has run main false ≡ true
  agree_stop false run main h = ground arith
  agree_stop true true main h = h
  agree_stop true false free h = refl
  agree_stop true false stopping h = refl
  agree_stop true false cleaning h = refl

  turn-Sound :
      (r r' : Reading D) (freeram : Option D) (o : Option (SystemProfiler D)) (run : Bool)
      (place : Place) (main : Main) (s' : System D)
      → Sound (sys o run place main)
      → profiling_thread_func k r r' freeram (sys o run place main) ≡ some s'
      → Sound s'
  unfolding profiling_thread_func Sound
  turn-Sound r r' freeram o run absent main s' h e = subst Sound (some_inj e) h
  turn-Sound r r' freeram o true testing main s' h e = subst Sound (some_inj e) h
  turn-Sound r r' freeram o false testing main s' h e =
      subst Sound (some_inj e) (agree_stop (is_some o) false main h)
  turn-Sound r r' freeram o run sampling main s' h e =
      subst Sound (some_inj e)
        (subst (λ b. agree b run main true ≡ true) (sym (sample-is_some r r' freeram o)) h)
  turn-Sound r r' freeram none run dozing main s' h e = ground arith
  turn-Sound r r' freeram (some p) run dozing main s' h e = subst Sound (some_inj e) h
  turn-Sound r r' freeram o run sleeping main s' h e = subst Sound (some_inj e) h
  turn-Sound r r' freeram o run ended main s' h e = subst Sound (some_inj e) h

  Step-Sound : (s s' : System D) → Sound s → Step k s s' → Sound s'
  unfolding called Sound
  Step-Sound s s' h (starting calloc created now now' s0 s1 idle e) =
      profiler_start-Sound calloc created now now' s.profiler s.running s.place s.main s' idle e
  Step-Sound s s' h (stopping_it now s0 idle) =
      (profiler_stop-Sound now s.profiler s.running s.place s.main idle h).0
  Step-Sound s s' h (freeing now s0 idle) =
      (profiler_stop-Sound now s.profiler s.running s.place s.main idle h).1
  Step-Sound s s' h (joining s0 over) =
      subst
        (λ place.
          Sound (sys s.profiler s.running place s.main)
          → Sound (joined k s.main (sys s.profiler s.running place s.main)))
        (sym over) (joined-Sound s.profiler s.running s.main) h
  Step-Sound s s' h (calling c s0) =
      subst (λ b. agree b s.running s.main (is_looping s.place) ≡ true)
        (sym (call-is_some c s.profiler)) h
  Step-Sound s s' h (running_on r r' freeram s0 s1 e) =
      turn-Sound r r' freeram s.profiler s.running s.place s.main s' h e

  pub Reachable-Sound : (s : System D) → Reachable k s → Sound s
  unfolding Sound
  Reachable-Sound s begun = refl
  Reachable-Sound s' (stepped s0 s1 r step) = Step-Sound s0 s1 (Reachable-Sound s0 r) step
