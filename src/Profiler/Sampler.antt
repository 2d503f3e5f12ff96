-- ===== src/Profiler/Sampler.antt =====
-- The profiler's own thread beside the program (src/profiler.c, `profiler_start`, `profiler_stop`,
-- `profiler_cleanup`, `profiling_thread_func`). One thread starts, stops and frees the profiler;
-- any thread makes the other calls. A step is a whole call, or one statement of the sampling loop:
-- what `sample_system_state` does in between, without the mutex, is one step too.
pub mod Sound
pub mod Safety
pub mod Ends
pub mod Bounds
use hifetch.Common.{Real, ℕ, ◌≡◌, Bool, true, false, List, Option, none, some, if◌then◌else◌}
use hifetch.Profiler.Calls.{
  profiler_init, profiler_reset, profile_function_enter, profile_function_exit,
  profile_thread_start, profile_thread_end, sample_system_state,
}
use hifetch.Profiler.State.{SystemProfiler, Reading}

-- Where the sampling thread is: not created, at the test of its loop, before the sample, before the
-- `usleep`, in it, or returned.
pub data Place : Type 0 where
  absent testing sampling dozing sleeping ended : Place

-- The thread that starts and stops: running, or in `pthread_join` for `profiler_stop`, or for
-- `profiler_cleanup`.
pub data Main : Type 0 where
  free stopping cleaning : Main

-- `running` is `profiling_thread_running`.
pub record System (D : Type 0) : Type 0 where
  pub profiler : Option (SystemProfiler D)
  pub running : Bool
  pub place : Place
  pub main : Main

-- The calls that change the tables and the events.
pub data Call (D : Type 0) : Type 0 where
  enters exits starts : Reading D → List ℕ → Call D
  ends : Reading D → Call D
  resets : Call D

abbrev pub is_free : Main → Bool
is_free free = true
is_free stopping = false
is_free cleaning = false

module _ {D : Type 0} (k : Real D) where
  unfoldable pub call : Call D → Option (SystemProfiler D) → Option (SystemProfiler D)
  call (enters r name) o = profile_function_enter k r name o
  call (exits r name) o = profile_function_exit k r name o
  call (starts r name) o = profile_thread_start k r name o
  call (ends r) o = profile_thread_end k r o
  call resets o = profiler_reset k o

  unfoldable pub start_profiling_thread : Bool → System D → System D
  start_profiling_thread pthread_create s =
      if s.running
      then s
      else record s { running = true; place = if pthread_create then testing else absent }

  -- `none` where it dereferences the null that a failed `calloc` leaves.
  unfoldable pub profiler_start : Bool → Bool → D → D → System D → Option (System D)
  profiler_start calloc pthread_create now now' s = elim (profiler_init k calloc now s.profiler) [
    | none ↦ none
    | some p ↦ some (
        start_profiling_thread pthread_create (record s {
          profiler = some (record p { is_profiling = true; profiling_start_time = now' });
        }))
  ]

  -- What the thread does once `pthread_join` is through, or was not called.
  unfoldable pub joined : Main → System D → System D
  joined free s = s
  joined stopping s = record s { main = free }
  joined cleaning s = record s { main = free; profiler = none }

  unfoldable pub stop_profiling_thread : Main → System D → System D
  stop_profiling_thread caller s =
      if s.running then record s { running = false; main = caller } else joined caller s

  unfoldable pub profiler_stop : Main → D → System D → System D
  profiler_stop caller now s = elim s.profiler [
    | none ↦ s
    | some p ↦ stop_profiling_thread caller (record s {
      profiler = some (record p {
        is_profiling = false;
        total_profiling_time = k.sub now p.profiling_start_time;
      });
    })
  ]

  unfoldable pub profiler_cleanup : D → System D → System D
  profiler_cleanup now s = elim s.profiler [ none ↦ s | some p ↦ profiler_stop cleaning now s ]

  -- One statement of the sampling loop; `none` where it dereferences a null profiler.
  unfoldable pub profiling_thread_func :
      Reading D → Reading D → Option D → System D → Option (System D)
  profiling_thread_func r r' freeram s = elim s.place [
    | absent ↦ some s
    | testing ↦ some (record s { place = if s.running then sampling else ended })
    | sampling ↦
        some (record s { profiler = sample_system_state k r r' freeram s.profiler; place = dozing })
    | dozing ↦ elim s.profiler [ none ↦ none | some p ↦ some (record s { place = sleeping }) ]
    | sleeping ↦ some (record s { place = testing })
    | ended ↦ some s
  ]

  unfoldable pub called : Call D → System D → System D
  called c s = record s { profiler = call c s.profiler }

  -- The steps of the two threads, in any order.
  pub data Step : System D → System D → Type 0 where
    starting :
        (calloc created : Bool) (now now' : D) (s s' : System D)
        → s.main ≡ free
        → profiler_start calloc created now now' s ≡ some s'
        → Step s s'
    stopping_it : (now : D) (s : System D) → s.main ≡ free → Step s (profiler_stop stopping now s)
    freeing : (now : D) (s : System D) → s.main ≡ free → Step s (profiler_cleanup now s)
    joining : (s : System D) → s.place ≡ ended → Step s (joined s.main s)
    calling : (c : Call D) (s : System D) → Step s (called c s)
    running_on :
        (r r' : Reading D) (freeram : Option D) (s s' : System D)
        → profiling_thread_func r r' freeram s ≡ some s'
        → Step s s'

  abbrev pub at_start : System D
  at_start = record { profiler = none; running = false; place = absent; main = free }

  pub data Reachable : System D → Type 0 where
    begun : Reachable at_start
    stepped : (s s' : System D) → Reachable s → Step s s' → Reachable s'
