-- ===== src/Memory/Pool/Alloc.antt =====
-- What `pool_alloc` (src/memory_opt.c) hands out, and sequences of calls on a pool.
use hifetch.Common.{
  Leaves-map, le→leb, Leaves, ℕ, ◌+◌, ◌%◌, ◌≤◌, ◌<◌, ◌^◌, ◌≡◌, ◌≢◌, ◌⊎◌, inl, inr, refl, Bool, true,
  false, List, [], ◌∷◌, Option, none, some, arith, Option-cases, ◌==◌, Bool-cases,
}
use native.Mathlib.Nat.{le_refl}
use hifetch.Memory.Pool.Free.{give_block-IsValid}
use hifetch.Memory.Pool.Valid.{IsValid, Taken, take_block-IsValid, pool_create-IsValid}
use hifetch.Memory.Pool.{
  MemBlock, MemoryPool, sizeof_block, remainder, unlink, pool_alloc, first_fit, round_up, pool_free,
  pool_create,
}

-- A request that does not wrap is rounded up to the next multiple of 8.
round_up_lem :
    (size : ℕ)
    → size + 7 < 2 ^ 64
    → (size ≤ round_up size) × (round_up size < size + 8) × (round_up size % 8 ≡ 0)
round_up_lem size h = omega arith

-- `pool_alloc` of a size from 1 to 2^64 - 8 keeps a valid pool valid, if the node for a remainder
-- can be had. Either it hands out a block of the size rounded up to a multiple of 8, which lies in
-- the mapping, shares no byte with any used block, is now the first of them and is counted in
-- `allocated`; or it gives what `malloc` gives for that size, and the pool is unchanged.
pub pool_alloc-IsValid :
    (malloc : ℕ → Option ℕ) (p : MemoryPool) (size : ℕ)
    → IsValid p
    → size ≢ 0
    → size + 7 < 2 ^ 64
    → let (ptr, left) = pool_alloc malloc true (some p) size in
      Leaves left (λ p'.
        IsValid p'
        × (((b : MemBlock) × (ptr ≡ some b.ptr)
              × (size ≤ b.size)
              × (b.size % 8 ≡ 0)
              × Taken p (round_up size) b p')
            ⊎ ((ptr ≡ malloc (round_up size)) × (p' ≡ p))))
unfolding pool_alloc Leaves
pool_alloc-IsValid malloc p size v positive small =
    let zero_test : (size == 0) ≡ false = ground arith in
    elim (Option-cases (first_fit true (round_up size) p.used_blocks p.free_blocks)) [
      | inl e ↦ rw (zero_test, e, pool_alloc) (v, inr (refl, refl))
      | inr ((b, left), e) ↦
          let (valid, taken) = take_block-IsValid p (round_up size) b left v e in
          rw (zero_test, e, pool_alloc)
            (valid, inl (b, refl, omega (arith, taken.sized), omega (arith, taken.sized), taken))
    ]

unlink_head : (b : MemBlock) (used : List MemBlock) → unlink b.ptr (b ∷ used) ≡ some (b, used)
unfolding unlink
unlink_head b used = ground arith

-- Releasing a block right after it was handed out gives the pool its used list and its count back.
pub pool_free-pool_alloc :
    (malloc : ℕ → Option ℕ) (p : MemoryPool) (size : ℕ) (b : MemBlock) (free : List MemBlock)
    → IsValid p
    → size ≢ 0
    → first_fit true (round_up size) p.used_blocks p.free_blocks ≡ some (b, free)
    → let (ptr, left) = pool_alloc malloc true (some p) size in
      Leaves (pool_free left ptr).1 (λ p'.
        (p'.used_blocks ≡ p.used_blocks)
        × (p'.free_blocks ≡ (record b { in_use = false }) ∷ free)
        × (p'.allocated ≡ p.allocated))
unfolding pool_alloc pool_free unlink Leaves
pool_free-pool_alloc malloc p size b free v positive e =
    let zero_test : (size == 0) ≡ false = ground arith in
    let (valid, taken) = take_block-IsValid p (round_up size) b free v e in
    rw (zero_test, e, pool_alloc)
      (rw (unlink_head b p.used_blocks, pool_free)
        (
          refl,
          refl,
          omega (
            arith, v.counted, v.room, v.small, taken.sized, taken.grown, valid.counted, valid.room,
          ),
        ))

-- Calls on a pool, with what the caller passes.
pub data Call : Type 0 where
  alloc : ℕ → Call
  release : Option ℕ → Call

unfoldable pub run : (ℕ → Option ℕ) → List Call → Option MemoryPool → Option MemoryPool
run malloc [] p = p
run malloc (alloc size ∷ calls) p = run malloc calls (pool_alloc malloc true p size).1
run malloc (release ptr ∷ calls) p = run malloc calls (pool_free p ptr).1

Leaves-IsValid :
    (malloc : ℕ → Option ℕ) (size : ℕ) (p : Option MemoryPool)
    → Leaves p IsValid
    → Leaves (pool_alloc malloc true p size).1 IsValid
unfolding Leaves pool_alloc
Leaves-IsValid malloc size none v = v
Leaves-IsValid malloc size (some p) v = elim (Bool-cases (size == 0)) [
  | inl e ↦ rw e v
  | inr e ↦ elim (Option-cases (first_fit true (round_up size) p.used_blocks p.free_blocks)) [
    | inl h ↦ rw (e, h, pool_alloc) v
    | inr ((b, left), h) ↦ rw (e, h, pool_alloc) (take_block-IsValid p (round_up size) b left v h).0
  ]
]

release-IsValid :
    (ptr : Option ℕ) (p : Option MemoryPool) → Leaves p IsValid → Leaves (pool_free p ptr).1 IsValid
unfolding Leaves pool_free
release-IsValid ptr none v = v
release-IsValid none (some p) v = v
release-IsValid (some ptr) (some p) v = elim (Option-cases (unlink ptr p.used_blocks)) [
  | inl e ↦ rw (e, pool_free) v
  | inr ((b, left), e) ↦ rw (e, pool_free) (give_block-IsValid p ptr b left v e).0
]

run-IsValid' :
    (malloc : ℕ → Option ℕ) (calls : List Call) (p : Option MemoryPool)
    → Leaves p IsValid
    → Leaves (run malloc calls p) IsValid
unfolding run
run-IsValid' malloc [] p v = v
run-IsValid' malloc (alloc size ∷ calls) p v =
    run-IsValid' malloc calls (pool_alloc malloc true p size).1 (Leaves-IsValid malloc size p v)
run-IsValid' malloc (release ptr ∷ calls) p v =
    run-IsValid' malloc calls (pool_free p ptr).1 (release-IsValid ptr p v)

-- Whatever sizes are asked for and whatever pointers are released, in any order, a pool made by
-- `pool_create` stays valid while nodes can be had: its used blocks share no byte with one another
-- nor with a free block, and lie in the mapping.
pub run-IsValid :
    (malloc : ℕ → Option ℕ) (start size : ℕ) (first : Bool) (calls : List Call)
    → size < 2 ^ 64
    → Leaves (run malloc calls (pool_create true (some start) first size)) IsValid
run-IsValid malloc start size first calls small =
    run-IsValid' malloc calls (pool_create true (some start) first size) (
      Leaves-map _ IsValid (λ p h. h.0) (pool_create true (some start) first size)
        (pool_create-IsValid start size first small))

-- A block that is split, or handed out whole, at the head of the free list.
first_fit_head :
    (node : Bool) (size : ℕ) (used : List MemBlock) (block : MemBlock) (rest : List MemBlock)
    → size ≤ block.size
    → first_fit node size used (block ∷ rest)
      ≡ some (record block { size = size; in_use = true }, remainder node size used block rest)
unfolding first_fit
first_fit_head node size used block rest fits = rw (le→leb size block.size fits)

remainder_shared :
    (size : ℕ) (used : List MemBlock) (block : MemBlock) (rest : List MemBlock)
    → size + sizeof_block < 2 ^ 64
    → size + sizeof_block < block.size
    → remainder false size used block rest ≡ (record block { size = size; in_use = true }) ∷ used
unfolding remainder
remainder_shared size used block rest room large = ground arith

-- When the first free block is large enough to be split and the node for its remainder cannot be
-- had, the block that `pool_alloc` hands out stays in the free list: a second request of the same
-- size gets the same pointer.
pub pool_alloc-twice :
    (malloc : ℕ → Option ℕ) (node : Bool) (p : MemoryPool) (size : ℕ) (block : MemBlock)
    (rest : List MemBlock)
    → p.free_blocks ≡ block ∷ rest
    → size ≢ 0
    → round_up size + sizeof_block < 2 ^ 64
    → round_up size + sizeof_block < block.size
    → let (first, left) = pool_alloc malloc false (some p) size in
      (first ≡ some block.ptr) × ((pool_alloc malloc node left size).0 ≡ first)
unfolding pool_alloc
pool_alloc-twice malloc node p size block rest e positive room large =
    let n = round_up size in
    let used = p.used_blocks in
    let taken : MemBlock = record block { size = n; in_use = true } in
    let zero_test : (size == 0) ≡ false = ground arith in
    let head : first_fit false n used p.free_blocks ≡ some (taken, taken ∷ used) = rw (
      e,
      first_fit_head false n used block rest (omega arith),
      remainder_shared n used block rest room large,
    ) in
    let again = first_fit_head node n (taken ∷ used) taken used (le_refl n) in
    rw (zero_test, head, pool_alloc) (rw (again, pool_alloc) (refl, rw zero_test refl))

-- A request of 2^64 - 7 bytes or more wraps to 0 when it is rounded up: it is served with the
-- address of the first free block, and a used block of no bytes.
pub pool_alloc-wraps :
    (malloc : ℕ → Option ℕ) (node : Bool) (p : MemoryPool) (size : ℕ) (block : MemBlock)
    (rest : List MemBlock)
    → p.free_blocks ≡ block ∷ rest
    → 2 ^ 64 ≤ size + 7
    → size < 2 ^ 64
    → let (ptr, left) = pool_alloc malloc node (some p) size in
      (ptr ≡ some block.ptr)
      × Leaves left
          (λ p'. p'.used_blocks ≡ (record block { size = 0; in_use = true }) ∷ p.used_blocks)
unfolding pool_alloc Leaves
pool_alloc-wraps malloc node p size block rest e low high =
    let zero_test : (size == 0) ≡ false = ground arith in
    let wrapped : round_up size ≡ 0 = omega arith in
    rw
      (
        zero_test,
        wrapped,
        e,
        first_fit_head node 0 p.used_blocks block rest (omega arith),
        pool_alloc,
      )
      (refl, refl)
