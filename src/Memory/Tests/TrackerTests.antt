-- ===== src/Memory/Tests/TrackerTests.antt =====
-- The tracker of src/memory_opt.c at concrete inputs.
use hifetch.Common.{
  Leaves, ℕ, ◌+◌, ◌≡◌, ◌⊎◌, refl, List, [], ◌∷◌, some, arith, replicate, if◌then◌else◌, ◌==◌, ltb,
}
use hifetch.Memory.Tracker.Laws.{
  IsValid, live, memory_tracker_init-IsValid, tracked_malloc-Tracks, tracked_free-Untracks,
}
use hifetch.Memory.Tracker.Live.{has_ptr}
use hifetch.Memory.Tracker.{
  MemoryLeak, MemoryTracker, Machine, no_leak, memory_tracker_init, find_leak, track,
  tracked_malloc, tracked_free, tracked_calloc,
}

abbrev fresh : MemoryTracker
fresh = record { leaks = replicate 1024 no_leak; count = 0; total_allocated = 0; peak_usage = 0 }

fresh-IsValid : IsValid fresh
unfolding Leaves memory_tracker_init
fresh-IsValid = memory_tracker_init-IsValid.0

abbrev bytes : ℕ → List ℕ
bytes p = if p == 500 then 1 ∷ 2 ∷ 3 ∷ [] else replicate 4 9

abbrev start : Machine
start = record { tracker = some fresh; memory = bytes; freed = [] }

abbrev block : MemoryLeak
block = record { ptr = 500; size = 3; file = []; line = 7; allocated_at = 60 }

abbrev one : MemoryTracker
one = record {
  leaks = block ∷ replicate 1023 no_leak;
  count = 1;
  total_allocated = 3;
  peak_usage = 3;
}

abbrev holding : Machine
holding = record { tracker = some one; memory = bytes; freed = [] }

tracked_malloc-Tracks_example :
    let (answer, m') = tracked_malloc (some 500) 60 start 3 [] 7 in
    (answer ≡ some 500)
    × Leaves m'.tracker (λ t'.
      IsValid t'
      × ((f : MemoryLeak → ℕ) → live f t' ≡ live f fresh + (if ltb 0 1024 then f block else 0)))
tracked_malloc-Tracks_example =
    tracked_malloc-Tracks 60 start fresh 500 3 [] 7 refl fresh-IsValid (omega arith)

one-IsValid : IsValid one
unfolding Leaves tracked_malloc track
one-IsValid = tracked_malloc-Tracks_example.1.0

tracked_free-Untracks_example :
    let m' = tracked_free holding (some 500) in
    (m'.freed ≡ 500 ∷ [])
    × Leaves m'.tracker (λ t'.
      IsValid t'
      × (((leak : MemoryLeak) × (leak.ptr ≡ 500)
            × ((f : MemoryLeak → ℕ) → live f t' + f leak ≡ live f one))
          ⊎ ((live (has_ptr 500) one ≡ 0) × (t' ≡ one))))
tracked_free-Untracks_example = tracked_free-Untracks holding one 500 refl one-IsValid

known : find_leak 500 one.leaks 1 0 ≡ some 0
unfolding find_leak
known = refl

-- `calloc` of two items of two bytes zeroes four bytes of the block.
zeroed : (tracked_calloc (some 640) 61 start 2 2 [] 9).1.memory 640 ≡ 0 ∷ 0 ∷ 0 ∷ 0 ∷ []
unfolding tracked_calloc tracked_malloc track
zeroed = refl
