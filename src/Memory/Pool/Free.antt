-- ===== src/Memory/Pool/Free.antt =====
-- The walk of the used list (src/memory_opt.c, `pool_free`), and the pool after a release.
use hifetch.Common.{
  Leaves, ℕ, ◌+◌, ◌≡◌, ◌⊎◌, inl, inr, refl, false, List, [], ◌∷◌, some, arith, Option-cases, ◌==◌,
  Bool-cases, sub64,
}
use hifetch.Memory.Pool.Blocks.{
  All, Sep, Apart, total, Given, Given-skip, Given-both, Sep-comm, All-map,
}
use hifetch.Memory.Pool.Valid.{Inside, IsValid}
use hifetch.Memory.Pool.{MemBlock, MemoryPool, unlink, pool_free, pooled, passed_on}

unlink-All :
    (P : MemBlock → Type 0) (ptr : ℕ) (used : List MemBlock)
    → All P used
    → Given (λ b left. P b × All P left) (unlink ptr used)
unfolding unlink
unlink-All P ptr [] h = tt
unlink-All P ptr (block ∷ rest) h = elim (Bool-cases (block.ptr == ptr)) [
  | inl e ↦ rw e h
  | inr e ↦ rw e (
      Given-skip (λ b left. P b × All P left) (λ b left. P b × All P left) block
        (λ b l q. (q.0, (h.0, q.1))) (unlink ptr rest) (unlink-All P ptr rest h.1))
]

unlink-Apart :
    (ptr : ℕ) (used : List MemBlock)
    → Apart used
    → Given (λ b left. All (Sep b) left × Apart left) (unlink ptr used)
unfolding unlink
unlink-Apart ptr [] h = tt
unlink-Apart ptr (block ∷ rest) h = elim (Bool-cases (block.ptr == ptr)) [
  | inl e ↦ rw e h
  | inr e ↦
      let inner =
        Given-both (λ b left. All (Sep b) left × Apart left)
          (λ b left. Sep block b × All (Sep block) left) (unlink ptr rest)
          (unlink-Apart ptr rest h.1) (unlink-All (Sep block) ptr rest h.0) in
      rw e (
        Given-skip
          (λ b left. (All (Sep b) left × Apart left) × (Sep block b × All (Sep block) left))
          (λ b left. All (Sep b) left × Apart left) block
          (λ b l q. ((Sep-comm block b q.1.0, q.0.0), (q.1.1, q.0.1))) (unlink ptr rest) inner)
]

unlink-total :
    (ptr : ℕ) (used : List MemBlock)
    → Given (λ b left. (b.ptr ≡ ptr) × (total left + b.size ≡ total used)) (unlink ptr used)
unfolding unlink total
unlink-total ptr [] = tt
unlink-total ptr (block ∷ rest) = elim (Bool-cases (block.ptr == ptr)) [
  | inl e ↦ rw e (ground arith, omega arith)
  | inr e ↦ rw e (
      Given-skip (λ b left. (b.ptr ≡ ptr) × (total left + b.size ≡ total rest))
        (λ b left. (b.ptr ≡ ptr) × (total left + b.size ≡ block.size + total rest)) block
        (λ b l q. (q.0, omega arith)) (unlink ptr rest) (unlink-total ptr rest))
]

abbrev pub give_block : MemoryPool → MemBlock → List MemBlock → MemoryPool
give_block p b left = record p {
  free_blocks = (record b { in_use = false }) ∷ p.free_blocks;
  used_blocks = left;
  allocated = sub64 p.allocated b.size;
}

pub give_block-IsValid :
    (p : MemoryPool) (ptr : ℕ) (b : MemBlock) (left : List MemBlock)
    → IsValid p
    → unlink ptr p.used_blocks ≡ some (b, left)
    → IsValid (give_block p b left)
      × (b.ptr ≡ ptr)
      × ((give_block p b left).allocated + b.size ≡ p.allocated)
unfolding total
give_block-IsValid p ptr b left v e =
    let (b_in, left_in) =
      rw e at (unlink-All (Inside p.pool_start p.pool_size) ptr p.used_blocks v.used_inside) in
    let (b_left, left_left) = rw e at (unlink-Apart ptr p.used_blocks v.used_apart) in
    let (at_ptr, sum) = rw e at (unlink-total ptr p.used_blocks) in
    let (b_free, left_free) =
      rw e at (unlink-All (λ u. All (Sep u) p.free_blocks) ptr p.used_blocks v.both_apart) in
    (
      record {
        free_inside = (b_in, v.free_inside);
        used_inside = left_in;
        free_apart = (b_free, v.free_apart);
        used_apart = left_left;
        both_apart = cross b_left left_free;
        room = omega (arith, v.room);
        small = v.small;
        counted = omega (arith, v.room, v.small, v.counted);
      },
      at_ptr,
      omega (arith, v.room, v.small, v.counted),
    )
  where
    zip_all :
        (P Q : MemBlock → Type 0) (bs : List MemBlock)
        → All P bs
        → All Q bs
        → All (λ u. P u × Q u) bs
    zip_all P Q [] h g = tt
    zip_all P Q (u ∷ us) h g = ((h.0, g.0), zip_all P Q us h.1 g.1)

    cross :
        All (Sep b) left
        → All (λ u. All (Sep u) p.free_blocks) left
        → All (λ u. Sep u (record b { in_use = false }) × All (Sep u) p.free_blocks) left
    cross h g =
        All-map (λ u. Sep b u × All (Sep u) p.free_blocks) _ (λ u q. (Sep-comm b u q.0, q.1)) left
          (zip_all _ _ left h g)

-- `pool_free` keeps the pool valid, whatever pointer it is given. Of a pointer to a used block it
-- takes that block out of the used list and its size off `allocated`; any other pointer it passes
-- on to `free`, with the pool unchanged.
pub pool_free-IsValid :
    (p : MemoryPool) (ptr : ℕ)
    → IsValid p
    → let (release, left) = pool_free (some p) (some ptr) in
      Leaves left (λ p'.
        IsValid p'
        × (((b : MemBlock) × (release ≡ pooled)
              × (b.ptr ≡ ptr)
              × (p'.free_blocks ≡ (record b { in_use = false }) ∷ p.free_blocks)
              × (p'.allocated + b.size ≡ p.allocated))
            ⊎ ((release ≡ passed_on) × (p' ≡ p))))
unfolding pool_free Leaves
pool_free-IsValid p ptr v = elim (Option-cases (unlink ptr p.used_blocks)) [
  | inl e ↦ rw (e, pool_free) (v, inr (refl, refl))
  | inr ((b, left), e) ↦
      let (valid, at_ptr, less) = give_block-IsValid p ptr b left v e in
      rw (e, pool_free) (valid, inl (b, refl, at_ptr, refl, less))
]
