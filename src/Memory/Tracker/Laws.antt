-- ===== src/Memory/Tracker/Laws.antt =====
-- The tracker (src/memory_opt.c) against the multiset of blocks that are out.
use hifetch.Common.{
  ℕ, ◌+◌, ◌≤◌, ◌<◌, ◌^◌, ◌≡◌, refl, List, ◌∷◌, none, some, arith, if◌then◌else◌, ◌∙◌, ltb→lt,
  get_or, length, length-set, Leaves, true, ltb, Bool-cases, Option-cases, inl, inr, ◌⊎◌,
  length-replicate,
}
use hifetch.Memory.Tracker.Live.{
  weigh, weigh-grow, weigh-shrink, find_leak-some, find_leak-none, has_ptr,
}
use hifetch.Memory.Tracker.{
  MemoryLeak, MemoryTracker, Machine, max_leaks, no_leak, recorded, dropped, memory_tracker_init,
  track, untrack, find_leak, tracked_malloc, tracked_free,
}

abbrev pub leak_size : MemoryLeak → ℕ
leak_size leak = leak.size

-- The sum of a weight over the blocks that the tracker knows.
abbrev pub live : (MemoryLeak → ℕ) → MemoryTracker → ℕ
live f t = weigh f t.count t.leaks

pub record IsValid (t : MemoryTracker) : Type 0 where
  pub width : length t.leaks ≡ max_leaks
  pub bounded : t.count ≤ max_leaks
  pub exact : t.total_allocated ≡ live leak_size t
  pub small : t.total_allocated < 2 ^ 64
  pub peak : t.total_allocated ≤ t.peak_usage

-- A tracker that was just made is valid and knows no block.
pub memory_tracker_init-IsValid :
    Leaves (memory_tracker_init true none) (λ t. IsValid t × ((f : MemoryLeak → ℕ) → live f t ≡ 0))
unfolding memory_tracker_init Leaves weigh
memory_tracker_init-IsValid = (
  record {
    width = length-replicate max_leaks no_leak;
    bounded = omega arith;
    exact = refl;
    small = omega arith;
    peak = omega arith;
  },
  λ f. refl,
)

pub recorded-IsValid :
    (leak : MemoryLeak) (t : MemoryTracker)
    → IsValid t
    → t.count < max_leaks
    → t.total_allocated + leak.size < 2 ^ 64
    → IsValid (recorded leak t)
      × ((f : MemoryLeak → ℕ) → live f (recorded leak t) ≡ live f t + f leak)
recorded-IsValid leak t v room h =
    let grow = λ (f : MemoryLeak → ℕ). weigh-grow f t.count t.leaks leak (omega (arith, v.width)) in
    (
      record {
        width = length-set t.leaks t.count leak ∙ v.width;
        bounded = omega arith;
        exact = omega (arith, grow leak_size, v.exact);
        small = omega arith;
        peak = ground arith;
      },
      grow,
    )

-- While the table has room and the sizes add up to less than 2^64, `tracked_malloc` returns what
-- `malloc` gives, keeps the tracker valid and adds just the new block to those that it knows; a full
-- table stays as it is.
pub tracked_malloc-Tracks :
    (now : ℕ) (m : Machine) (t : MemoryTracker) (ptr size : ℕ) (file : List ℕ) (line : ℕ)
    → m.tracker ≡ some t
    → IsValid t
    → t.total_allocated + size < 2 ^ 64
    → let (answer, m') = tracked_malloc (some ptr) now m size file line in
      let leak : MemoryLeak = record {
        ptr = ptr;
        size = size;
        file = file;
        line = line;
        allocated_at = now;
      } in
      (answer ≡ some ptr)
      × Leaves m'.tracker (λ t'.
        IsValid t'
        × ((f : MemoryLeak → ℕ)
            → live f t' ≡ live f t + (if ltb t.count max_leaks then f leak else 0)))
unfolding tracked_malloc track Leaves
tracked_malloc-Tracks now m t ptr size file line e v h =
    let leak : MemoryLeak = record {
      ptr = ptr;
      size = size;
      file = file;
      line = line;
      allocated_at = now;
    } in
    rw e (elim (Bool-cases (ltb t.count max_leaks)) [
      | inl room ↦ rw room (refl, recorded-IsValid leak t v (ltb→lt t.count max_leaks room) h)
      | inr full ↦ rw full (refl, (v, λ f. omega arith))
    ])

pub dropped-IsValid :
    (t : MemoryTracker) (i : ℕ)
    → IsValid t
    → i < t.count
    → IsValid (dropped i t)
      × ((f : MemoryLeak → ℕ) → live f (dropped i t) + f (get_or t.leaks i no_leak) ≡ live f t)
dropped-IsValid t i v h =
    let shrink = λ (f : MemoryLeak → ℕ).
      weigh-shrink f t.count i t.leaks h (omega (arith, v.width, v.bounded)) in
    (
      record {
        width = length-set t.leaks i _ ∙ v.width;
        bounded = omega (arith, v.bounded);
        exact = omega (arith, shrink leak_size, v.exact, v.small);
        small = omega arith;
        peak = omega (arith, shrink leak_size, v.exact, v.small, v.peak);
      },
      shrink,
    )

-- `tracked_free` hands the pointer to `free` and keeps the tracker valid: it takes one block with
-- that pointer from those that the tracker knows, or, if there is none, leaves the tracker as it is.
pub tracked_free-Untracks :
    (m : Machine) (t : MemoryTracker) (ptr : ℕ)
    → m.tracker ≡ some t
    → IsValid t
    → let m' = tracked_free m (some ptr) in
      (m'.freed ≡ ptr ∷ m.freed)
      × Leaves m'.tracker (λ t'.
        IsValid t'
        × (((leak : MemoryLeak) × (leak.ptr ≡ ptr)
              × ((f : MemoryLeak → ℕ) → live f t' + f leak ≡ live f t))
            ⊎ ((live (has_ptr ptr) t ≡ 0) × (t' ≡ t))))
unfolding tracked_free untrack Leaves
tracked_free-Untracks m t ptr e v = rw e (elim (Option-cases (find_leak ptr t.leaks t.count 0)) [
  | inl absent ↦
      rw (absent, untrack) (refl, (v, inr (find_leak-none ptr t.leaks t.count 0 absent, refl)))
  | inr (i, found) ↦
      let (k, at, low, same) = find_leak-some ptr t.leaks t.count 0 i found in
      let here : i ≡ k = omega arith in
      let (valid, sums) = dropped-IsValid t k v low in
      rw (found, untrack, here) (refl, (valid, inl (get_or t.leaks k no_leak, same, sums)))
])
