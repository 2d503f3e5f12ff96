-- ===== src/Profiler/Tests.antt =====
-- Runs of the profiler (src/profiler.c), with numbers for times.
use hifetch.Common.{
  codes, Real, ℕ, ◌+◌, ◌-◌, ◌≡◌, refl, true, false, List, [], ◌∷◌, none, some, arith, ltb, is_some,
  take, Leaves,
}
use hifetch.Profiler.Bounds.{Within}
use hifetch.Profiler.Calls.{
  profiler_init, enter_function, enter_event, function_slot, new_thread, add_profile_event,
  profile_function_enter, profile_function_exit, measure, new_function,
}
use hifetch.Profiler.Measures.{Adds, profile_function_exit-profile_function_enter}
use hifetch.Profiler.Nested.{profile_function_exit-nested}
use hifetch.Profiler.Report.{sorted_functions, top_functions}
use hifetch.Profiler.Sampler.{
  ended, enters, System, free, stopping, testing, at_start, starting, stopping_it, calling,
  Reachable, begun, stepped, profiler_start, profiler_stop, start_profiling_thread,
  stop_profiling_thread, called, profiling_thread_func,
}
use hifetch.Profiler.Sampler.Bounds.{Reachable-Within}
use hifetch.Profiler.Sampler.Ends.{Turn, count_loops, loops, calls, run_turns, run_turns-Ended}
use hifetch.Profiler.Sampler.Safety.{profiling_thread_func-is_some}
use hifetch.Profiler.Slots.{or_else, first, slot_at, slot, find_index, modify_slot, modify}
use hifetch.Profiler.Sorting.{IsOrder, IsDescending}
use hifetch.Profiler.State.{FunctionProfile, given, SystemProfiler, Reading}
use hifetch.Profiler.Stats.{stats, functions_of}
use hifetch.Profiler.Tables.{HasRoom}
use hifetch.Profiler.Top.{functions_in, top_functions-IsDescending}
use mathlib.Core.List.{Perm}

abbrev clock : Real ℕ
clock = record {
  zero = 0;
  huge = 1000000000;
  add = λ a b. a + b;
  sub = λ a b. a - b;
  less = λ a b. ltb a b;
}

clock-IsOrder : IsOrder clock
clock-IsOrder = record {
  asym = λ a b h. ground (arith, h);
  trans = λ a b c h h'. ground (arith, h, h');
}

abbrev main_name : List ℕ
main_name = codes "main"

abbrev reading : ℕ → Reading ℕ
reading time = record { self = 7; now = time; stamp = time; maxrss = some 2000 }

abbrev started : SystemProfiler ℕ
started = record {
  events = [];
  threads = [];
  profiling_start_time = 1;
  total_profiling_time = 0;
  sampling_rate = 1000;
  is_profiling = true;
}

abbrev function : List ℕ → ℕ → FunctionProfile ℕ
function name time = record {
  name = name;
  execution_time = time;
  call_count = 1;
  min_time = time;
  max_time = time;
  total_time = time;
}

abbrev busy : SystemProfiler ℕ
busy = record started {
  threads =
      (record {
        thread_id = 7;
        thread_name = given main_name;
        cpu_time = 0;
        start_time = 1;
        is_active = true;
        functions = function main_name 5 ∷ function (b'f' ∷ []) 9 ∷ [];
      })
      ∷ [];
}

started-HasRoom : HasRoom clock 7 started
unfolding functions_of first
started-HasRoom = record {
  for_event = omega arith;
  for_thread = omega arith;
  for_function = omega arith;
}

entered-HasRoom : HasRoom clock 7 (enter_function clock (reading 3) main_name started)
unfolding enter_function enter_event slot_at slot find_index function_slot new_thread
    add_profile_event modify_slot modify functions_of first
entered-HasRoom = record {
  for_event = omega arith;
  for_thread = omega arith;
  for_function = omega arith;
}

profile_function_exit-profile_function_enter_example :
    Leaves
      (profile_function_exit clock
        (reading 8)
        main_name
        (profile_function_enter clock (reading 3) main_name (some started)))
      (Adds clock 7 main_name 5 started)
profile_function_exit-profile_function_enter_example =
    profile_function_exit-profile_function_enter clock (reading 3) (reading 8) main_name started
      refl refl started-HasRoom

profile_function_exit-nested_example :
    Leaves
      (profile_function_exit clock (reading 9) main_name (
        profile_function_exit clock (reading 6) main_name (
          profile_function_enter clock
            (reading 5)
            main_name
            (profile_function_enter clock (reading 3) main_name (some started)))))
      (λ q.
        stats 7 main_name q.threads
        ≡ some (
            measure clock 4 (
              measure clock 1
                (or_else (new_function clock main_name) (stats 7 main_name started.threads)))))
profile_function_exit-nested_example =
    profile_function_exit-nested clock (reading 3) (reading 5) (reading 6) (reading 9) main_name
      started refl refl refl refl started-HasRoom entered-HasRoom

top_functions-IsDescending_example :
    IsDescending clock (λ (f : FunctionProfile ℕ). f.total_time) (sorted_functions clock busy)
    × Perm (sorted_functions clock busy) (take 512 (functions_in busy.threads))
    × (top_functions clock busy ≡ take 10 (sorted_functions clock busy))
top_functions-IsDescending_example = top_functions-IsDescending clock busy clock-IsOrder

-- The system after a start, a call and a stop.
abbrev running_system : System ℕ
running_system = record { profiler = some started; running = true; place = testing; main = free }

start_runs : profiler_start clock true true 0 1 (at_start clock) ≡ some running_system
unfolding profiler_start start_profiling_thread profiler_init
start_runs = refl

running-Reachable : Reachable clock running_system
running-Reachable =
    stepped (at_start clock) running_system begun
      (starting true true 0 1 (at_start clock) running_system refl start_runs)

called-Reachable : Reachable clock (called clock (enters (reading 3) main_name) running_system)
called-Reachable =
    stepped running_system (called clock (enters (reading 3) main_name) running_system)
      running-Reachable (calling (enters (reading 3) main_name) running_system)

abbrev stopped : System ℕ
stopped = profiler_stop clock stopping 20 running_system

stopped-Reachable : Reachable clock stopped
stopped-Reachable =
    stepped running_system stopped running-Reachable (stopping_it 20 running_system refl)

Reachable-Within_example :
    Within (called clock (enters (reading 3) main_name) running_system).profiler
Reachable-Within_example =
    Reachable-Within clock (called clock (enters (reading 3) main_name) running_system)
      called-Reachable

profiling_thread_func-is_some_example :
    is_some (
      profiling_thread_func clock
        (reading 4)
        (reading 5)
        (some 6)
        (called clock (enters (reading 3) main_name) running_system))
    ≡ true
profiling_thread_func-is_some_example =
    profiling_thread_func-is_some clock (called clock (enters (reading 3) main_name) running_system)
      called-Reachable (reading 4) (reading 5) (some 6)

abbrev turns : List (Turn ℕ)
turns =
    loops (reading 21) (reading 22) none
    ∷ calls (enters (reading 23) main_name)
    ∷ loops (reading 24) (reading 25) none
    ∷ loops (reading 26) (reading 27) none
    ∷ loops (reading 28) (reading 29) none
    ∷ []

run_turns-Ended_example :
    Leaves
      (run_turns clock turns stopped)
      (λ s'. (s'.place ≡ ended) × (s'.running ≡ false) × (s'.main ≡ stopping))
unfolding profiler_stop stop_profiling_thread count_loops
run_turns-Ended_example =
    run_turns-Ended clock stopped stopped-Reachable refl (λ e. ground (arith, e)) turns
      (omega arith)
