-- ===== src/Profiler/Calls.antt =====
-- The calls that a profiled program makes (src/profiler.c). `none` stands for a null
-- `global_profiler`.
use hifetch.Common.{
  codes, Real, ℕ, ◌+◌, ◌*◌, Bool, true, false, ◌&&◌, List, [], ◌∷◌, ◌++◌, Option, none, some,
  if◌then◌else◌, leb, ltb, ◌==◌, str_eq, get_elem?, length, is_some,
}
use hifetch.Profiler.Slots.{find_index, slot, slot_at, modify, modify_slot}
use hifetch.Profiler.State.{
  FunctionProfile, EventType, enter, exit, sample, memory, ProfileEvent, numbered, given,
  ThreadProfile, SystemProfiler, Reading, max_threads, max_samples, max_functions, short_id,
  is_thread, is_named, with_functions,
}
use mathlib.Core.Option

-- "system_state" and "system_memory"
abbrev pub system_state : List ℕ
system_state = codes "system_state"

abbrev pub system_memory : List ℕ
system_memory = codes "system_memory"

module _ {D : Type 0} (k : Real D) where
  unfoldable pub profiler_init : Bool → D → Option (SystemProfiler D) → Option (SystemProfiler D)
  profiler_init calloc now (some p) = some p
  profiler_init false now none = none
  profiler_init true now none = some (record {
    events = [];
    threads = [];
    profiling_start_time = now;
    total_profiling_time = k.zero;
    sampling_rate = 1000;
    is_profiling = false;
  })

  unfoldable pub profiler_reset : Option (SystemProfiler D) → Option (SystemProfiler D)
  profiler_reset none = none
  profiler_reset (some p) = some (record p { events = []; threads = [] })

  abbrev pub new_event : Reading D → EventType → List ℕ → D → ProfileEvent D
  new_event r event_type name duration = record {
    timestamp = r.stamp;
    event_type = event_type;
    function_name = name;
    thread_id = short_id r.self;
    duration = duration;
    memory_usage = elim r.maxrss [ some m ↦ m * 1024 | none ↦ 0 ];
  }

  unfoldable pub add_profile_event :
      Reading D → EventType → List ℕ → D → SystemProfiler D → SystemProfiler D
  add_profile_event r event_type name duration p =
      if leb max_samples (length p.events)
      then p
      else record p { events = p.events ++ new_event r event_type name duration ∷ [] }

  -- An entry of `threads` that `profile_function_enter` makes, and one of `functions`.
  unfoldable pub new_thread : Reading D → ℕ → ThreadProfile D
  new_thread r index = record {
    thread_id = r.self;
    thread_name = numbered index;
    cpu_time = k.zero;
    start_time = r.now;
    is_active = true;
    functions = [];
  }

  unfoldable pub new_function : List ℕ → FunctionProfile D
  new_function name = record {
    name = name;
    execution_time = k.zero;
    call_count = 0;
    min_time = k.huge;
    max_time = k.zero;
    total_time = k.zero;
  }

  unfoldable pub function_slot : List ℕ → ThreadProfile D → Option ℕ × List (FunctionProfile D)
  function_slot name t = slot (is_named name) max_functions (new_function name) t.functions

  unfoldable pub enter_event :
      Reading D
      → List ℕ
      → Option (Option ℕ × List (FunctionProfile D))
      → SystemProfiler D
      → SystemProfiler D
  enter_event r name (some (some j, fs)) p = add_profile_event r enter name k.zero p
  enter_event r name (some (none, fs)) p = p
  enter_event r name none p = p

  -- `profile_function_enter` after its guard.
  unfoldable pub enter_function : Reading D → List ℕ → SystemProfiler D → SystemProfiler D
  enter_function r name p =
      let found = slot (is_thread r.self) max_threads (new_thread r (length p.threads)) p.threads in
      enter_event r name (Option.map (function_slot name) (slot_at found))
        (record p { threads = modify_slot (λ t. with_functions t (function_slot name t).1) found })

  unfoldable pub profile_function_enter :
      Reading D → List ℕ → Option (SystemProfiler D) → Option (SystemProfiler D)
  profile_function_enter r name none = none
  profile_function_enter r name (some p) =
      some (if p.is_profiling then enter_function r name p else p)

  unfoldable pub is_enter : ℕ → List ℕ → ProfileEvent D → Bool
  is_enter self name e =
      (elim e.event_type [ enter ↦ true | _ ↦ false ])
      && str_eq e.function_name name
      && (e.thread_id == short_id self)

  -- The loop over the events from the last one backwards, which stops at the first that fits.
  unfoldable pub last_enter : ℕ → List ℕ → List (ProfileEvent D) → Option (ProfileEvent D)
  last_enter self name [] = none
  last_enter self name (e ∷ events) = elim (last_enter self name events) [
    | some later ↦ some later
    | none ↦ if is_enter self name e then some e else none
  ]

  unfoldable pub enter_time : ℕ → List ℕ → List (ProfileEvent D) → D
  enter_time self name events = elim (last_enter self name events) [
    | some e ↦ e.timestamp
    | none ↦ k.zero
  ]

  unfoldable pub measure : D → FunctionProfile D → FunctionProfile D
  measure time f = record {
    name = f.name;
    execution_time = time;
    call_count = f.call_count + 1;
    min_time = if k.less time f.min_time then time else f.min_time;
    max_time = if k.less f.max_time time then time else f.max_time;
    total_time = k.add f.total_time time;
  }

  -- `profile_function_exit` once the thread and the function are found.
  unfoldable pub exit_found :
      Reading D → List ℕ → SystemProfiler D → ℕ → Option (Option ℕ) → SystemProfiler D
  exit_found r name p i (some (some j)) =
      let time = k.sub r.now (enter_time r.self name p.events) in
      add_profile_event r exit name time (record p {
        threads = modify i (λ t. with_functions t (modify j (measure time) t.functions)) p.threads;
      })
  exit_found r name p i (some none) = p
  exit_found r name p i none = p

  -- `profile_function_exit` after its guard.
  unfoldable pub exit_function : Reading D → List ℕ → SystemProfiler D → SystemProfiler D
  exit_function r name p = elim (find_index (is_thread r.self) p.threads) [
    | none ↦ p
    | some i ↦
        exit_found r name p i
          (Option.map (λ t. find_index (is_named name) t.functions) (get_elem? p.threads i))
  ]

  unfoldable pub profile_function_exit :
      Reading D → List ℕ → Option (SystemProfiler D) → Option (SystemProfiler D)
  profile_function_exit r name none = none
  profile_function_exit r name (some p) =
      some (if p.is_profiling then exit_function r name p else p)

  unfoldable pub profile_thread_start :
      Reading D → List ℕ → Option (SystemProfiler D) → Option (SystemProfiler D)
  profile_thread_start r name none = none
  profile_thread_start r name (some p) = some (
      if ltb (length p.threads) max_threads
      then record p {
        threads =
            p.threads
            ++ (record {
              thread_id = r.self;
              thread_name = given name;
              cpu_time = k.zero;
              start_time = r.now;
              is_active = true;
              functions = [];
            })
              ∷ [];
      }
      else p)

  unfoldable pub profile_thread_end :
      Reading D → Option (SystemProfiler D) → Option (SystemProfiler D)
  profile_thread_end r none = none
  profile_thread_end r (some p) = some (elim (find_index (is_thread r.self) p.threads) [
    | some i ↦ record p {
      threads =
          modify i (λ t. record t { is_active = false; cpu_time = k.sub r.now t.start_time })
            p.threads;
    }
    | none ↦ p
  ])

  -- `getrusage` and `sysinfo` may fail; the second answers `freeram`, as a `double`.
  unfoldable pub sample_system_state :
      Reading D → Reading D → Option D → Option (SystemProfiler D) → Option (SystemProfiler D)
  sample_system_state r r' freeram none = none
  sample_system_state r r' freeram (some p) =
      let sampled =
        if is_some r.maxrss then add_profile_event r sample system_state k.zero p else p in
      some (
        if p.is_profiling
        then (elim freeram [
          | some free ↦ add_profile_event r' memory system_memory free sampled
          | none ↦ sampled
        ])
        else p)
