-- ===== src/Memory/Pool.antt =====
-- The memory pool of src/memory_opt.c: a free list and a list of used blocks over one mapping.
-- Every operation holds the pool's mutex, so it is one step here. What `malloc` and `mmap` answer
-- is an argument. Blocks are values and the two lists own them; only a split whose `malloc` fails
-- makes the lists share nodes, and there the lists say what either head reaches at that moment.
pub mod Blocks
pub mod Valid
pub mod Free
pub mod Alloc
use hifetch.Common.{
  ℕ, ◌+◌, ◌-◌, ◌*◌, ◌/◌, ◌%◌, ◌^◌, Bool, true, false, List, [], ◌∷◌, Option, none, some, ltb, leb,
  ◌==◌, if◌then◌else◌, add64, sub64,
}
use mathlib.Core.Option

pub record MemBlock : Type 0 where
  pub ptr : ℕ
  pub size : ℕ
  pub in_use : Bool

pub record MemoryPool : Type 0 where
  pub free_blocks : List MemBlock
  pub used_blocks : List MemBlock
  pub pool_start : ℕ
  pub pool_size : ℕ
  pub allocated : ℕ

-- `sizeof(MemBlock)` on a 64-bit machine
abbrev pub sizeof_block : ℕ
sizeof_block = 32

-- The pool's own node and the first block's node may fail to be allocated; `mapped` is the address
-- that `mmap` gives, or `none` for MAP_FAILED.
unfoldable pub pool_create : Bool → Option ℕ → Bool → ℕ → Option MemoryPool
pool_create false mapped first size = none
pool_create true none first size = none
pool_create true (some start) first size = some (record {
  free_blocks = if first then (record { ptr = start; size = size; in_use = false }) ∷ [] else [];
  used_blocks = [];
  pool_start = start;
  pool_size = size;
  allocated = 0;
})

-- `(size + 7) & ~7`
abbrev pub round_up : ℕ → ℕ
round_up size = (size + 7) % 2 ^ 64 / 8 * 8

-- What `*current` leads to after the block is taken: its remainder, the block itself followed by the
-- used list where the remainder's node cannot be had, or what followed it.
unfoldable pub remainder : Bool → ℕ → List MemBlock → MemBlock → List MemBlock → List MemBlock
remainder node size used block rest =
    if ltb ((size + sizeof_block) % 2 ^ 64) block.size
    then (if node
        then (record { ptr = block.ptr + size; size = block.size - size; in_use = false }) ∷ rest
        else (record block { size = size; in_use = true }) ∷ used)
    else rest

-- The walk of the free list: the block that is handed out, and the free list that is left.
unfoldable pub first_fit :
    Bool → ℕ → List MemBlock → List MemBlock → Option (MemBlock × List MemBlock)
first_fit node size used [] = none
first_fit node size used (block ∷ rest) =
    if leb size block.size
    then some (record block { size = size; in_use = true }, remainder node size used block rest)
    else Option.map (λ found. (found.0, block ∷ found.1)) (first_fit node size used rest)

-- `malloc` serves what the pool cannot; a pointer is `none` when it is null.
unfoldable pub pool_alloc :
    (ℕ → Option ℕ) → Bool → Option MemoryPool → ℕ → Option ℕ × Option MemoryPool
pool_alloc malloc node none size = (none, none)
pool_alloc malloc node (some pool) size =
    if size == 0
    then (none, some pool)
    else elim (first_fit node (round_up size) pool.used_blocks pool.free_blocks) [
      | some (block, free) ↦ (
        some block.ptr,
        some (record pool {
          free_blocks = free;
          used_blocks = block ∷ pool.used_blocks;
          allocated = add64 pool.allocated (round_up size);
        }),
      )
      | none ↦ (malloc (round_up size), some pool)
    ]

-- The walk of the used list: the block at the pointer, and the list without it.
unfoldable pub unlink : ℕ → List MemBlock → Option (MemBlock × List MemBlock)
unlink ptr [] = none
unlink ptr (block ∷ rest) =
    if block.ptr == ptr
    then some (block, rest)
    else Option.map (λ found. (found.0, block ∷ found.1)) (unlink ptr rest)

-- Where a released pointer goes: nowhere, back to the pool, or to `free`.
pub data Release : Type 0 where
  ignored pooled passed_on : Release

unfoldable pub pool_free : Option MemoryPool → Option ℕ → Release × Option MemoryPool
pool_free none ptr = (ignored, none)
pool_free (some pool) none = (ignored, some pool)
pool_free (some pool) (some ptr) = elim (unlink ptr pool.used_blocks) [
  | some (block, used) ↦ (
    pooled,
    some (record pool {
      free_blocks = (record block { in_use = false }) ∷ pool.free_blocks;
      used_blocks = used;
      allocated = sub64 pool.allocated block.size;
    }),
  )
  | none ↦ (passed_on, some pool)
]
