-- ===== src/Memory/Tests/PoolTests.antt =====
-- The pool of src/memory_opt.c at concrete inputs.
use hifetch.Common.{
  Leaves, ℕ, ◌%◌, ◌≤◌, ◌≡◌, ◌⊎◌, refl, true, false, List, [], ◌∷◌, Option, some, arith,
}
use hifetch.Memory.Pool.Alloc.{
  pool_alloc-IsValid, pool_free-pool_alloc, Call, alloc, release, run, run-IsValid,
}
use hifetch.Memory.Pool.Valid.{IsValid, Taken, pool_create-IsValid}
use hifetch.Memory.Pool.{
  MemBlock, MemoryPool, pool_create, round_up, first_fit, remainder, pool_alloc, pool_free,
}

abbrev heap : ℕ → Option ℕ
heap size = some 7000

abbrev whole : MemBlock
whole = record { ptr = 4096; size = 1024; in_use = false }

abbrev fresh : MemoryPool
fresh = record {
  free_blocks = whole ∷ [];
  used_blocks = [];
  pool_start = 4096;
  pool_size = 1024;
  allocated = 0;
}

pool_create-IsValid_example :
    Leaves
      (pool_create true (some 4096) true 1024)
      (λ p. IsValid p × (p.used_blocks ≡ []) × (p.allocated ≡ 0))
pool_create-IsValid_example = pool_create-IsValid 4096 1024 true (omega arith)

fresh-IsValid : IsValid fresh
unfolding Leaves pool_create
fresh-IsValid = pool_create-IsValid_example.0

pool_alloc-IsValid_example :
    let (ptr, left) = pool_alloc heap true (some fresh) 20 in
    Leaves left (λ p'.
      IsValid p'
      × (((b : MemBlock) × (ptr ≡ some b.ptr)
            × (20 ≤ b.size)
            × (b.size % 8 ≡ 0)
            × Taken fresh (round_up 20) b p')
          ⊎ ((ptr ≡ heap (round_up 20)) × (p' ≡ fresh))))
pool_alloc-IsValid_example =
    pool_alloc-IsValid heap fresh 20 fresh-IsValid (omega arith) (omega arith)

abbrev first_block : MemBlock
first_block = record { ptr = 4096; size = 24; in_use = true }

abbrev second_block : MemBlock
second_block = record { ptr = 4120; size = 1000; in_use = false }

split : first_fit true (round_up 20) [] (whole ∷ []) ≡ some (first_block, second_block ∷ [])
unfolding first_fit remainder
split = refl

pool_free-pool_alloc_example :
    let (ptr, left) = pool_alloc heap true (some fresh) 20 in
    Leaves (pool_free left ptr).1 (λ p'.
      (p'.used_blocks ≡ [])
      × (p'.free_blocks ≡ (record first_block { in_use = false }) ∷ second_block ∷ [])
      × (p'.allocated ≡ 0))
pool_free-pool_alloc_example =
    pool_free-pool_alloc heap fresh 20 first_block (second_block ∷ []) fresh-IsValid (omega arith)
      split

abbrev calls : List Call
calls = alloc 20 ∷ alloc 8 ∷ release (some 4096) ∷ alloc 16 ∷ []

run-IsValid_example : Leaves (run heap calls (pool_create true (some 4096) true 1024)) IsValid
run-IsValid_example = run-IsValid heap 4096 1024 true calls (omega arith)

-- A request of 20 bytes takes 24 from the front, and one that does not fit goes to `malloc`.
served :
    ((pool_alloc heap true (some fresh) 20).0 ≡ some 4096)
    × ((pool_alloc heap true (pool_alloc heap true (some fresh) 20).1 20).0 ≡ some 4120)
    × ((pool_alloc heap true (some fresh) 2000).0 ≡ some 7000)
unfolding pool_alloc first_fit remainder
served = (refl, refl, refl)
