-- ===== src/Profiler/Sampler/Bounds.antt =====
-- The bounds of the profiler's arrays in every state of the two threads (src/profiler.c).
use hifetch.Common.{
  Real, append-All, some_inj, ◌≡◌, subst, inl, inr, Bool, true, false, [], ◌∷◌, Option, none, some,
  arith, if◌then◌else◌, ltb, ltb→lt, length, length-append, Bool-cases, Option-cases, is_some,
}
use hifetch.Profiler.Bounds.{
  IsBounded, Within, Few, modify-All, event-IsBounded, enter-IsBounded, exit-IsBounded,
}
use hifetch.Profiler.Calls.{
  profiler_init, profiler_reset, profile_function_enter, profile_function_exit,
  profile_thread_start, profile_thread_end, sample_system_state, system_state, system_memory,
  add_profile_event,
}
use hifetch.Profiler.Sampler.{
  Place, absent, testing, sampling, dozing, sleeping, ended, Main, free, stopping, cleaning, System,
  Call, enters, exits, starts, ends, resets, call, start_profiling_thread, profiler_start, joined,
  stop_profiling_thread, profiler_stop, profiler_cleanup, profiling_thread_func, called, Step,
  starting, stopping_it, freeing, joining, calling, running_on, Reachable, begun, stepped,
}
use hifetch.Profiler.Slots.{find_index}
use hifetch.Profiler.State.{SystemProfiler, ThreadProfile, Reading, sample, memory, is_thread}
use hifetch.Profiler.Sampler.Sound.{sys}

module _ {D : Type 0} (k : Real D) where
  if-IsBounded :
      (b : Bool) (p q : SystemProfiler D)
      → IsBounded p
      → IsBounded q
      → IsBounded (if b then p else q)
  if-IsBounded true p q hp hq = hp
  if-IsBounded false p q hp hq = hq

  call-Within : (c : Call D) (o : Option (SystemProfiler D)) → Within o → Within (call k c o)
  unfolding call profile_function_enter profile_function_exit profile_thread_start
      profile_thread_end profiler_reset Within
  call-Within (enters r name) none w = tt
  call-Within (enters r name) (some p) w =
      if-IsBounded p.is_profiling _ p (enter-IsBounded k r name p w) w
  call-Within (exits r name) none w = tt
  call-Within (exits r name) (some p) w =
      if-IsBounded p.is_profiling _ p (exit-IsBounded k r name p w) w
  call-Within (starts r name) none w = tt
  call-Within (starts r name) (some p) w = elim (Bool-cases (ltb (length p.threads) 1024)) [
    | inl room ↦ rw room (record {
      few_events = w.few_events;
      few_threads =
          omega (arith, ltb→lt (length p.threads) 1024 room, length-append p.threads (_ ∷ []));
      few_functions = append-All Few p.threads _ w.few_functions (omega arith);
    })
    | inr full ↦ rw full w
  ]
  call-Within (ends r) none w = tt
  call-Within (ends r) (some p) w = elim (Option-cases (find_index (is_thread r.self) p.threads)) [
    | inl e ↦ rw e w
    | inr (i, e) ↦
        let (every, same) =
          modify-All Few
            (λ (t : ThreadProfile D). record t {
              is_active = false;
              cpu_time = k.sub r.now t.start_time;
            })
            (λ t few. few) i p.threads w.few_functions in
        rw e (record {
          few_events = w.few_events;
          few_threads = rw same w.few_threads;
          few_functions = every;
        })
  ]
  call-Within resets none w = tt
  call-Within resets (some p) w = record {
    few_events = omega arith;
    few_threads = omega arith;
    few_functions = tt;
  }

  sample-Within :
      (r r' : Reading D) (freeram : Option D) (o : Option (SystemProfiler D))
      → Within o
      → Within (sample_system_state k r r' freeram o)
  unfolding sample_system_state Within
  sample-Within r r' freeram none w = tt
  sample-Within r r' freeram (some p) w =
      if-IsBounded p.is_profiling _ p (measured-IsBounded freeram) w
    where
      sampled : SystemProfiler D
      sampled = if is_some r.maxrss then add_profile_event k r sample system_state k.zero p else p

      measured : Option D → SystemProfiler D
      measured f = elim f [
        | some bytes ↦ add_profile_event k r' memory system_memory bytes sampled
        | none ↦ sampled
      ]

      sampled-IsBounded : IsBounded sampled
      sampled-IsBounded =
          if-IsBounded (is_some r.maxrss) _ p (event-IsBounded k r sample system_state k.zero p w) w

      measured-IsBounded : (f : Option D) → IsBounded (measured f)
      measured-IsBounded none = sampled-IsBounded
      measured-IsBounded (some bytes) =
          event-IsBounded k r' memory system_memory bytes sampled sampled-IsBounded

  -- The clock and the flag do not matter.
  timed-IsBounded :
      (p : SystemProfiler D) (began took : D) (on : Bool)
      → IsBounded p
      → IsBounded (record p {
        profiling_start_time = began;
        total_profiling_time = took;
        is_profiling = on;
      })
  timed-IsBounded p began took on w = record {
    few_events = w.few_events;
    few_threads = w.few_threads;
    few_functions = w.few_functions;
  }

  begin-Within :
      (created : Bool) (p : SystemProfiler D) (run : Bool) (place : Place) (main : Main) (now' : D)
      → IsBounded p
      → Within
          (start_profiling_thread k created (
            sys k
              (some (record p { is_profiling = true; profiling_start_time = now' }))
              run
              place
              main)).profiler
  unfolding start_profiling_thread Within
  begin-Within created p true place main now' w =
      timed-IsBounded p now' p.total_profiling_time true w
  begin-Within created p false place main now' w =
      timed-IsBounded p now' p.total_profiling_time true w

  start-Within :
      (calloc created : Bool) (now now' : D) (o : Option (SystemProfiler D)) (run : Bool)
      (place : Place) (main : Main) (s' : System D)
      → Within o
      → profiler_start k calloc created now now' (sys k o run place main) ≡ some s'
      → Within s'.profiler
  unfolding profiler_start profiler_init Within
  start-Within calloc created now now' (some p) run place main s' w e =
      subst (λ q. Within q.profiler) (some_inj e) (begin-Within created p run place main now' w)
  start-Within true created now now' none run place main s' w e =
      subst (λ q. Within q.profiler) (some_inj e)
        (begin-Within created
          (record {
            events = [];
            threads = [];
            profiling_start_time = now;
            total_profiling_time = k.zero;
            sampling_rate = 1000;
            is_profiling = false;
          })
          run place main now'
          (record { few_events = omega arith; few_threads = omega arith; few_functions = tt }))
  start-Within false created now now' none run place main s' w e = ground arith

  stop-Within :
      (caller : Main) (now : D) (o : Option (SystemProfiler D)) (run : Bool) (place : Place)
      (main : Main)
      → Within o
      → Within (profiler_stop k caller now (sys k o run place main)).profiler
  unfolding profiler_stop stop_profiling_thread joined Within
  stop-Within caller now none run place main w = tt
  stop-Within caller now (some p) true place main w =
      timed-IsBounded p p.profiling_start_time (k.sub now p.profiling_start_time) false w
  stop-Within free now (some p) false place main w =
      timed-IsBounded p p.profiling_start_time (k.sub now p.profiling_start_time) false w
  stop-Within stopping now (some p) false place main w =
      timed-IsBounded p p.profiling_start_time (k.sub now p.profiling_start_time) false w
  stop-Within cleaning now (some p) false place main w = tt

  cleanup-Within :
      (now : D) (o : Option (SystemProfiler D)) (run : Bool) (place : Place) (main : Main)
      → Within o
      → Within (profiler_cleanup k now (sys k o run place main)).profiler
  unfolding profiler_cleanup
  cleanup-Within now none run place main w = w
  cleanup-Within now (some p) run place main w = stop-Within cleaning now (some p) run place main w

  joined-Within :
      (main : Main) (s : System D) → Within s.profiler → Within (joined k main s).profiler
  unfolding joined Within
  joined-Within free s w = w
  joined-Within stopping s w = w
  joined-Within cleaning s w = tt

  turn-Within :
      (r r' : Reading D) (freeram : Option D) (o : Option (SystemProfiler D)) (run : Bool)
      (place : Place) (main : Main) (s' : System D)
      → Within o
      → profiling_thread_func k r r' freeram (sys k o run place main) ≡ some s'
      → Within s'.profiler
  unfolding profiling_thread_func
  turn-Within r r' freeram o run absent main s' w e = subst (λ q. Within q.profiler) (some_inj e) w
  turn-Within r r' freeram o run testing main s' w e = subst (λ q. Within q.profiler) (some_inj e) w
  turn-Within r r' freeram o run sampling main s' w e =
      subst (λ q. Within q.profiler) (some_inj e) (sample-Within r r' freeram o w)
  turn-Within r r' freeram none run dozing main s' w e = ground arith
  turn-Within r r' freeram (some p) run dozing main s' w e =
      subst (λ q. Within q.profiler) (some_inj e) w
  turn-Within r r' freeram o run sleeping main s' w e =
      subst (λ q. Within q.profiler) (some_inj e) w
  turn-Within r r' freeram o run ended main s' w e = subst (λ q. Within q.profiler) (some_inj e) w

  Step-Within : (s s' : System D) → Within s.profiler → Step k s s' → Within s'.profiler
  unfolding called
  Step-Within s s' w (starting calloc created now now' s0 s1 idle e) =
      start-Within calloc created now now' s.profiler s.running s.place s.main s' w e
  Step-Within s s' w (stopping_it now s0 idle) =
      stop-Within stopping now s.profiler s.running s.place s.main w
  Step-Within s s' w (freeing now s0 idle) =
      cleanup-Within now s.profiler s.running s.place s.main w
  Step-Within s s' w (joining s0 over) = joined-Within s.main s w
  Step-Within s s' w (calling c s0) = call-Within c s.profiler w
  Step-Within s s' w (running_on r r' freeram s0 s1 e) =
      turn-Within r r' freeram s.profiler s.running s.place s.main s' w e

  -- In every state that starts, stops, frees, calls of other threads and statements of the sampling
  -- loop lead to, in any order and each done as a whole, a profiler has at most 10000 events, at most
  -- 1024 threads, and at most 512 functions in each of them.
  pub Reachable-Within : (s : System D) → Reachable k s → Within s.profiler
  unfolding Within
  Reachable-Within s begun = tt
  Reachable-Within s (stepped s0 s1 r step) = Step-Within s0 s1 (Reachable-Within s0 r) step
