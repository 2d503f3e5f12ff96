-- ===== src/Memory/Pool/Valid.antt =====
-- The invariant of the pool (src/memory_opt.c), and what `pool_alloc` and `pool_free` do to it.
use hifetch.Common.{
  Leaves, ℕ, ◌+◌, ◌≤◌, ◌<◌, ◌^◌, ◌≡◌, refl, Bool, true, false, List, [], ◌∷◌, some, arith, add64,
}
use hifetch.Memory.Pool.Blocks.{
  All, Sep, Apart, total, Sep-inherits, Sep-comm, All-map, first_fit-All, first_fit-Apart,
  first_fit-total,
}
use hifetch.Memory.Pool.{MemBlock, MemoryPool, pool_create, first_fit}

abbrev pub Inside : ℕ → ℕ → MemBlock → Type 0
Inside start size b = (start ≤ b.ptr) × (b.ptr + b.size ≤ start + size)

-- Every block lies in the mapping, no two blocks share a byte, their sizes fit the mapping, and
-- `allocated` is the sum of the used ones.
pub record IsValid (p : MemoryPool) : Type 0 where
  pub free_inside : All (Inside p.pool_start p.pool_size) p.free_blocks
  pub used_inside : All (Inside p.pool_start p.pool_size) p.used_blocks
  pub free_apart : Apart p.free_blocks
  pub used_apart : Apart p.used_blocks
  pub both_apart : All (λ u. All (Sep u) p.free_blocks) p.used_blocks
  pub room : total p.free_blocks + total p.used_blocks ≤ p.pool_size
  pub small : p.pool_size < 2 ^ 64
  pub counted : p.allocated ≡ total p.used_blocks

-- A pool that `pool_create` makes over a mapping is valid and empty, with or without its first
-- block.
pub pool_create-IsValid :
    (start size : ℕ) (first : Bool)
    → size < 2 ^ 64
    → Leaves
        (pool_create true (some start) first size)
        (λ p. IsValid p × (p.used_blocks ≡ []) × (p.allocated ≡ 0))
unfolding pool_create total Leaves
pool_create-IsValid start size true small = (
  record {
    free_inside = (omega arith, tt);
    used_inside = tt;
    free_apart = (tt, tt);
    used_apart = tt;
    both_apart = tt;
    room = omega arith;
    small = small;
    counted = refl;
  },
  refl,
  refl,
)
pool_create-IsValid start size false small = (
  record {
    free_inside = tt;
    used_inside = tt;
    free_apart = tt;
    used_apart = tt;
    both_apart = tt;
    room = omega arith;
    small = small;
    counted = refl;
  },
  refl,
  refl,
)

-- A block taken from a valid pool.
pub record Taken (p : MemoryPool) (size : ℕ) (b : MemBlock) (p' : MemoryPool) : Type 0 where
  pub linked : p'.used_blocks ≡ b ∷ p.used_blocks
  pub sized : b.size ≡ size
  pub inside : Inside p.pool_start p.pool_size b
  pub apart : All (Sep b) p.used_blocks
  pub grown : p'.allocated ≡ p.allocated + size

abbrev pub take_block : MemoryPool → ℕ → MemBlock → List MemBlock → MemoryPool
take_block p size b left = record p {
  free_blocks = left;
  used_blocks = b ∷ p.used_blocks;
  allocated = add64 p.allocated size;
}

pub take_block-IsValid :
    (p : MemoryPool) (size : ℕ) (b : MemBlock) (left : List MemBlock)
    → IsValid p
    → first_fit true size p.used_blocks p.free_blocks ≡ some (b, left)
    → IsValid (take_block p size b left) × Taken p size b (take_block p size b left)
unfolding total
take_block-IsValid p size b left v e =
    let (b_in, left_in) =
      found (Inside p.pool_start p.pool_size) (λ x y h lo hi. omega arith) v.free_inside in
    let (b_left, left_left) =
      rw e at (first_fit-Apart size p.used_blocks p.free_blocks v.free_apart) in
    let (sized, _, sum) = rw e at (first_fit-total size p.used_blocks p.free_blocks) in
    let used_b =
      All-map (λ u. All (Sep u) p.free_blocks) (λ u. Sep u b × All (Sep u) left)
        (λ u h. found (Sep u) (Sep-inherits u) h) p.used_blocks v.both_apart in
    let b_used = All-map _ (Sep b) (λ u h. Sep-comm u b h.0) p.used_blocks used_b in
    (
      record {
        free_inside = left_in;
        used_inside = (b_in, v.used_inside);
        free_apart = left_left;
        used_apart = (b_used, v.used_apart);
        both_apart = (
          b_left,
          All-map (λ u. Sep u b × All (Sep u) left) (λ u. All (Sep u) left) (λ u h. h.1)
              p.used_blocks used_b,
        );
        room = omega (arith, v.room);
        small = v.small;
        counted = omega (arith, v.room, v.small, v.counted);
      },
      record {
        linked = refl;
        sized = sized;
        inside = b_in;
        apart = b_used;
        grown = omega (arith, v.room, v.small, v.counted);
      },
    )
  where
    found :
        (P : MemBlock → Type 0)
        → ((x y : MemBlock) → P x → x.ptr ≤ y.ptr → y.ptr + y.size ≤ x.ptr + x.size → P y)
        → All P p.free_blocks
        → P b × All P left
    found P inherits h = rw e at (first_fit-All size p.used_blocks P inherits p.free_blocks h)
