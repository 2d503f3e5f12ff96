-- ===== src/Memory/Tracker.antt =====
-- The leak tracker of src/memory_opt.c: the wrappers of `malloc`, `free`, `calloc` and `realloc`.
-- The tracker's mutex makes each update of its table one step. What `malloc` answers and what
-- `time(NULL)` returns are arguments. `memory` gives the bytes behind a pointer, and `freed` lists
-- the pointers that were handed to `free`.
pub mod Live
pub mod Laws
pub mod Resizing
use mathlib.Core.Option
use hifetch.Common.{
  ℕ, ◌+◌, ◌-◌, ◌*◌, ◌%◌, ◌^◌, Bool, true, false, List, [], ◌∷◌, ◌++◌, Option, none, some, ltb, ◌==◌,
  if◌then◌else◌, length, zero, suc, add64, sub64, get_or, set, take, drop, replicate, ◌&&◌,
}

pub record MemoryLeak : Type 0 where
  pub ptr : ℕ
  pub size : ℕ
  pub file : List ℕ
  pub line : ℕ
  pub allocated_at : ℕ

pub record MemoryTracker : Type 0 where
  pub leaks : List MemoryLeak
  pub count : ℕ
  pub total_allocated : ℕ
  pub peak_usage : ℕ

pub record Machine : Type 0 where
  pub tracker : Option MemoryTracker
  pub memory : ℕ → List ℕ
  pub freed : List ℕ

abbrev pub max_leaks : ℕ
max_leaks = 1024

abbrev pub no_leak : MemoryLeak
no_leak = record { ptr = 0; size = 0; file = []; line = 0; allocated_at = 0 }

unfoldable pub memory_tracker_init : Bool → Option MemoryTracker → Option MemoryTracker
memory_tracker_init calloc (some t) = some t
memory_tracker_init true none =
    some (record {
      leaks = replicate max_leaks no_leak;
      count = 0;
      total_allocated = 0;
      peak_usage = 0;
    })
memory_tracker_init false none = none

-- The table's update in `tracked_malloc`, where it has room, and with its test.
abbrev pub recorded : MemoryLeak → MemoryTracker → MemoryTracker
recorded leak t = record {
  leaks = set t.leaks t.count leak;
  count = t.count + 1;
  total_allocated = add64 t.total_allocated leak.size;
  peak_usage =
      if ltb t.peak_usage (add64 t.total_allocated leak.size)
      then add64 t.total_allocated leak.size
      else t.peak_usage;
}

unfoldable pub track : MemoryLeak → MemoryTracker → MemoryTracker
track leak t = if ltb t.count max_leaks then recorded leak t else t

unfoldable pub tracked_malloc : Option ℕ → ℕ → Machine → ℕ → List ℕ → ℕ → Option ℕ × Machine
tracked_malloc none now m size file line = (none, m)
tracked_malloc (some ptr) now m size file line = (
  some ptr,
  record m {
    tracker =
        Option.map
          (track (record { ptr = ptr; size = size; file = file; line = line; allocated_at = now }))
          m.tracker;
  },
)

-- The index at which `for (i = 0; i < count; i++) if (leaks[i].ptr == ptr)` stops: `n` rounds are
-- left, of which the first looks at index `i`.
unfoldable pub find_leak : ℕ → List MemoryLeak → ℕ → ℕ → Option ℕ
find_leak ptr [] n i = none
find_leak ptr (leak ∷ rest) zero i = none
find_leak ptr (leak ∷ rest) (suc n) i =
    if leak.ptr == ptr then some i else find_leak ptr rest n (i + 1)

-- The table's update in `tracked_free`: the last entry takes the place of the one that goes.
abbrev pub dropped : ℕ → MemoryTracker → MemoryTracker
dropped i t = record t {
  total_allocated = sub64 t.total_allocated (get_or t.leaks i no_leak).size;
  leaks = set t.leaks i (get_or t.leaks (t.count - 1) no_leak);
  count = t.count - 1;
}

unfoldable pub untrack : ℕ → MemoryTracker → MemoryTracker
untrack ptr t = elim (find_leak ptr t.leaks t.count 0) [ some i ↦ dropped i t | none ↦ t ]

-- `free(NULL)` does nothing.
unfoldable pub tracked_free : Machine → Option ℕ → Machine
tracked_free m none = m
tracked_free m (some ptr) = record m {
  tracker = Option.map (untrack ptr) m.tracker;
  freed = ptr ∷ m.freed;
}

abbrev pub write : (ℕ → List ℕ) → ℕ → List ℕ → ℕ → List ℕ
write memory ptr bytes q = if q == ptr then bytes ++ drop (length bytes) (memory q) else memory q

unfoldable pub tracked_calloc : Option ℕ → ℕ → Machine → ℕ → ℕ → List ℕ → ℕ → Option ℕ × Machine
tracked_calloc answer now m nmemb size file line =
    let bytes = nmemb * size % 2 ^ 64 in
    let (ptr, m') = tracked_malloc answer now m bytes file line in
    elim ptr [
      | some p ↦ (some p, record m' { memory = write m'.memory p (replicate bytes 0) })
      | none ↦ (none, m')
    ]

-- The copy in `tracked_realloc`: from a block that the table knows, as many bytes as both hold.
unfoldable pub copy_old : ℕ → ℕ → ℕ → MemoryTracker → (ℕ → List ℕ) → ℕ → List ℕ
copy_old new_ptr ptr size t memory = elim (find_leak ptr t.leaks t.count 0) [
  | some i ↦
      let old_size = (get_or t.leaks i no_leak).size in
      write memory new_ptr (take (if ltb old_size size then old_size else size) (memory ptr))
  | none ↦ memory
]

-- The copy is made only if the new block and the tracker are there.
unfoldable pub copy_if_tracked : Option ℕ → ℕ → ℕ → Machine → Machine
copy_if_tracked none ptr size m = m
copy_if_tracked (some new_ptr) ptr size m = elim m.tracker [
  | some t ↦ record m { memory = copy_old new_ptr ptr size t m.memory }
  | none ↦ m
]

unfoldable pub tracked_realloc :
    Option ℕ → ℕ → Machine → Option ℕ → ℕ → List ℕ → ℕ → Option ℕ × Machine
tracked_realloc answer now m none size file line = tracked_malloc answer now m size file line
tracked_realloc answer now m (some ptr) size file line =
    let (new_ptr, m') = tracked_malloc answer now m size file line in
    (new_ptr, tracked_free (copy_if_tracked new_ptr ptr size m') (some ptr))
