-- ===== src/Memory/Tracker/Resizing.antt =====
-- `tracked_realloc` (src/memory_opt.c): what it copies, and where it loses the old block; and a
-- block that is released right after it was tracked.
use hifetch.Common.{
  ℕ, zero, suc, ◌+◌, ◌<◌, ◌^◌, ◌≡◌, refl, List, [], ◌∷◌, ◌++◌, none, some, arith, if◌then◌else◌, ap,
  ◌==◌, get_or, set, take, drop, length, get_or-set_self, get_or-set_ne, Leaves, ltb, lt→ltb,
  Bool-cases, inl, inr,
}
use hifetch.Memory.Tracker.Laws.{IsValid, live, leak_size, recorded-IsValid, dropped-IsValid}
use hifetch.Memory.Tracker.Live.{weigh, has_ptr, find_leak-some}
use hifetch.Memory.Tracker.{
  MemoryLeak, MemoryTracker, Machine, max_leaks, no_leak, recorded, track, untrack, find_leak,
  tracked_malloc, tracked_free, tracked_realloc, copy_if_tracked, copy_old, write,
}

-- A new last entry does not hide an older one,
find_leak_kept :
    (ptr : ℕ) (xs : List MemoryLeak) (n i j : ℕ) (v : MemoryLeak)
    → find_leak ptr xs n i ≡ some j
    → find_leak ptr (set xs n v) (suc n) i ≡ some j
unfolding find_leak
find_leak_kept ptr [] n i j v e = ground arith
find_leak_kept ptr (x ∷ xs) zero i j v e = ground arith
find_leak_kept ptr (x ∷ xs) (suc n) i j v e = ground (arith, find_leak_kept ptr xs n (i + 1) j v)

-- and is found if there is no older one.
find_leak_new :
    (ptr : ℕ) (xs : List MemoryLeak) (n i j : ℕ) (v : MemoryLeak)
    → n < length xs
    → v.ptr ≡ ptr
    → weigh (has_ptr ptr) n xs ≡ 0
    → j ≡ i + n
    → find_leak ptr (set xs n v) (suc n) i ≡ some j
unfolding find_leak weigh
find_leak_new ptr [] n i j v h same none_yet e = absurd (omega arith)
find_leak_new ptr (x ∷ xs) zero i j v h same none_yet e = ground arith
find_leak_new ptr (x ∷ xs) (suc n) i j v h same none_yet e =
    ground (arith, find_leak_new ptr xs n (i + 1) j v)

-- A block that `tracked_malloc` records and `tracked_free` releases leaves the tracker with the
-- blocks and the total that it had, if the table has room and does not know the pointer yet.
pub tracked_free-tracked_malloc :
    (now : ℕ) (m : Machine) (t : MemoryTracker) (ptr size : ℕ) (file : List ℕ) (line : ℕ)
    → m.tracker ≡ some t
    → IsValid t
    → t.count < max_leaks
    → t.total_allocated + size < 2 ^ 64
    → live (has_ptr ptr) t ≡ 0
    → let (answer, m') = tracked_malloc (some ptr) now m size file line in
      Leaves (tracked_free m' answer).tracker (λ t'.
        IsValid t'
        × (t'.total_allocated ≡ t.total_allocated)
        × ((f : MemoryLeak → ℕ) → live f t' ≡ live f t))
unfolding tracked_malloc tracked_free track untrack Leaves
tracked_free-tracked_malloc now m t ptr size file line e v room small unknown =
    let leak : MemoryLeak = record {
      ptr = ptr;
      size = size;
      file = file;
      line = line;
      allocated_at = now;
    } in
    let next : t.count + 1 ≡ suc t.count = omega arith in
    let at : find_leak ptr (recorded leak t).leaks (recorded leak t).count 0 ≡ some t.count =
      rw next (
        find_leak_new ptr t.leaks t.count 0 t.count leak (omega (arith, v.width)) refl unknown
          (omega arith)) in
    let (valid, grow) = recorded-IsValid leak t v room small in
    let (valid', shrink) = dropped-IsValid (recorded leak t) t.count valid (omega arith) in
    let new_last : get_or (recorded leak t).leaks t.count no_leak ≡ leak =
      get_or-set_self t.leaks t.count leak no_leak (omega (arith, v.width)) in
    rw (e, lt→ltb t.count max_leaks room)
      (rw (at, untrack)
        (
          valid',
          omega (arith, ap leak_size new_last, v.small),
          λ f. omega (arith, shrink f, grow f, ap f new_last),
        ))

-- Without a tracker `tracked_realloc` copies nothing: the new block has the bytes that it had, and
-- the old one is freed.
pub tracked_realloc-loses :
    (now : ℕ) (m : Machine) (ptr new_ptr size : ℕ) (file : List ℕ) (line : ℕ)
    → m.tracker ≡ none
    → let (answer, m') = tracked_realloc (some new_ptr) now m (some ptr) size file line in
      (answer ≡ some new_ptr) × (m'.memory ≡ m.memory) × (m'.freed ≡ ptr ∷ m.freed)
unfolding tracked_realloc tracked_malloc copy_if_tracked tracked_free
tracked_realloc-loses now m ptr new_ptr size file line e = rw e (refl, refl, refl)

-- When `malloc` fails `tracked_realloc` returns null and frees the old block all the same.
pub tracked_realloc-fails :
    (now : ℕ) (m : Machine) (ptr size : ℕ) (file : List ℕ) (line : ℕ)
    → let (answer, m') = tracked_realloc none now m (some ptr) size file line in
      (answer ≡ none) × (m'.memory ≡ m.memory) × (m'.freed ≡ ptr ∷ m.freed)
unfolding tracked_realloc tracked_malloc copy_if_tracked tracked_free
tracked_realloc-fails now m ptr size file line = (refl, refl, refl)

-- Tracking one more block leaves an older entry where it is.
track_kept :
    (leak : MemoryLeak) (t : MemoryTracker) (ptr i : ℕ)
    → find_leak ptr t.leaks t.count 0 ≡ some i
    → (find_leak ptr (track leak t).leaks (track leak t).count 0 ≡ some i)
      × (get_or (track leak t).leaks i no_leak ≡ get_or t.leaks i no_leak)
unfolding track
track_kept leak t ptr i found =
    let next : t.count + 1 ≡ suc t.count = omega arith in
    let (k, at, low, _) = find_leak-some ptr t.leaks t.count 0 i found in
    elim (Bool-cases (ltb t.count max_leaks)) [
      | inl room ↦
          rw (room, next)
            (
              find_leak_kept ptr t.leaks t.count 0 i leak found,
              get_or-set_ne t.leaks t.count i leak no_leak (omega arith),
            )
      | inr full ↦ rw full (found, refl)
    ]

copy_old-track :
    (leak : MemoryLeak) (t : MemoryTracker) (ptr new_ptr size i : ℕ) (memory : ℕ → List ℕ)
    → find_leak ptr t.leaks t.count 0 ≡ some i
    → let old_size = (get_or t.leaks i no_leak).size in
      copy_old new_ptr ptr size (track leak t) memory
      ≡ write memory new_ptr (take (if ltb old_size size then old_size else size) (memory ptr))
unfolding copy_old
copy_old-track leak t ptr new_ptr size i memory found =
    let (kept, entry) = track_kept leak t ptr i found in rw (kept, copy_old) (rw entry)

-- Of a block that the tracker knows `tracked_realloc` copies the first bytes, as many as the old and
-- the new size allow, to the front of the new block; it leaves all other memory, and frees the old
-- block.
pub tracked_realloc-copies :
    (now : ℕ) (m : Machine) (t : MemoryTracker) (ptr new_ptr size i : ℕ) (file : List ℕ) (line : ℕ)
    → m.tracker ≡ some t
    → find_leak ptr t.leaks t.count 0 ≡ some i
    → let old_size = (get_or t.leaks i no_leak).size in
      let bytes = take (if ltb old_size size then old_size else size) (m.memory ptr) in
      let (answer, m') = tracked_realloc (some new_ptr) now m (some ptr) size file line in
      (answer ≡ some new_ptr)
      × ((q : ℕ)
          → m'.memory q
            ≡ (if q == new_ptr then bytes ++ drop (length bytes) (m.memory q) else m.memory q))
      × (m'.freed ≡ ptr ∷ m.freed)
unfolding tracked_realloc tracked_malloc copy_if_tracked tracked_free
tracked_realloc-copies now m t ptr new_ptr size i file line e found =
    let leak : MemoryLeak = record {
      ptr = new_ptr;
      size = size;
      file = file;
      line = line;
      allocated_at = now;
    } in
    rw e (refl, λ q. ap (λ (mem : ℕ → List ℕ). mem q) (copied leak), refl)
  where
    copied :
        (leak : MemoryLeak)
        → copy_old new_ptr ptr size (track leak t) m.memory
          ≡ write m.memory new_ptr (
              take
                (if ltb (get_or t.leaks i no_leak).size size
                  then (get_or t.leaks i no_leak).size
                  else size)
                (m.memory ptr))
    copied leak = copy_old-track leak t ptr new_ptr size i m.memory found
