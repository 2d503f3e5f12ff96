-- ===== src/Profiler/State.antt =====
-- The state of the profiler (include/profiler.h). A `double` is any type `D` with the operations
-- that the code uses; an array is the list of its entries in use, since those after its count are
-- zero from `calloc` and `memset` on. A name is shorter than its array.
use hifetch.Common.{ℕ, Bool, List, Option, str_eq, ◌==◌, ◌%◌, ◌^◌}

pub record FunctionProfile (D : Type 0) : Type 0 where
  pub name : List ℕ
  pub execution_time : D
  pub call_count : ℕ
  pub min_time : D
  pub max_time : D
  pub total_time : D

-- The four values of `event_type`.
pub data EventType : Type 0 where
  enter exit sample memory : EventType

pub record ProfileEvent (D : Type 0) : Type 0 where
  pub timestamp : D
  pub event_type : EventType
  pub function_name : List ℕ
  pub thread_id : ℕ
  pub duration : D
  pub memory_usage : ℕ

-- `Thread-%d`, or the name that a thread gives itself.
pub data ThreadName : Type 0 where
  numbered : ℕ → ThreadName
  given : List ℕ → ThreadName

pub record ThreadProfile (D : Type 0) : Type 0 where
  pub thread_id : ℕ
  pub thread_name : ThreadName
  pub cpu_time : D
  pub start_time : D
  pub is_active : Bool
  pub functions : List (FunctionProfile D)

pub record SystemProfiler (D : Type 0) : Type 0 where
  pub events : List (ProfileEvent D)
  pub threads : List (ThreadProfile D)
  pub profiling_start_time : D
  pub total_profiling_time : D
  pub sampling_rate : ℕ
  pub is_profiling : Bool

abbrev pub max_threads : ℕ
max_threads = 1024

abbrev pub max_samples : ℕ
max_samples = 10000

abbrev pub max_functions : ℕ
max_functions = 512

-- What a call reads of the system: `pthread_self`, the time, the time again for the event that it
-- adds, and `ru_maxrss` where `getrusage` succeeds.
pub record Reading (D : Type 0) : Type 0 where
  pub self : ℕ
  pub now : D
  pub stamp : D
  pub maxrss : Option ℕ

-- `(int)pthread_self()`, up to sign.
abbrev pub short_id : ℕ → ℕ
short_id self = self % 2 ^ 32

module _ {D : Type 0} where
  abbrev pub is_thread : ℕ → ThreadProfile D → Bool
  is_thread self t = t.thread_id == self

  abbrev pub is_named : List ℕ → FunctionProfile D → Bool
  is_named name f = str_eq f.name name

  abbrev pub with_functions : ThreadProfile D → List (FunctionProfile D) → ThreadProfile D
  with_functions t fs = record t { functions = fs }
