-- ===== src/Memory/Pool/Blocks.antt =====
-- Lists of blocks of the pool (src/memory_opt.c): what holds of every block, which blocks keep
-- apart, and what the walks of the two lists do to both.
use hifetch.Common.{
  ℕ, ◌+◌, ◌≤◌, ◌≡◌, ◌⊎◌, true, List, [], ◌∷◌, Option, none, some, arith, ltb, leb, Bool-cases, inl,
  inr, refl, ◌%◌, ◌^◌,
}
use mathlib.Core.Option
use hifetch.Memory.Pool.{MemBlock, first_fit, remainder}

abbrev pub All : (MemBlock → Type 0) → List MemBlock → Type 0
All P [] = Unit
All P (b ∷ bs) = P b × All P bs

-- Two blocks share no byte.
abbrev pub Sep : MemBlock → MemBlock → Type 0
Sep a b = (a.ptr + a.size ≤ b.ptr) ⊎ (b.ptr + b.size ≤ a.ptr)

abbrev pub Apart : List MemBlock → Type 0
Apart [] = Unit
Apart (b ∷ bs) = All (Sep b) bs × Apart bs

unfoldable pub total : List MemBlock → ℕ
total [] = 0
total (b ∷ bs) = b.size + total bs

-- A property that passes from a block to its parts.
abbrev pub Inherits : (MemBlock → Type 0) → Type 0
Inherits P = (a b : MemBlock) → P a → a.ptr ≤ b.ptr → b.ptr + b.size ≤ a.ptr + a.size → P b

pub Sep-inherits : (a : MemBlock) → Inherits (Sep a)
Sep-inherits a b c h lo hi = omega arith

pub Sep-comm : (a b : MemBlock) → Sep a b → Sep b a
Sep-comm a b h = omega arith

pub All-map :
    (P Q : MemBlock → Type 0)
    → ((b : MemBlock) → P b → Q b)
    → (bs : List MemBlock) → All P bs
    → All Q bs
All-map P Q f [] h = tt
All-map P Q f (b ∷ bs) h = (f b h.0, All-map P Q f bs h.1)

-- What a walk finds, if it finds anything.
abbrev pub Given : (MemBlock → List MemBlock → Type 0) → Option (MemBlock × List MemBlock) → Type 0
Given Q none = Unit
Given Q (some found) = Q found.0 found.1

pub Given-skip :
    (Q R : MemBlock → List MemBlock → Type 0) (x : MemBlock)
    → ((b : MemBlock) (l : List MemBlock) → Q b l → R b (x ∷ l))
    → (o : Option (MemBlock × List MemBlock)) → Given Q o
    → Given R (Option.map (λ found. (found.0, x ∷ found.1)) o)
Given-skip Q R x step none h = h
Given-skip Q R x step (some found) h = step found.0 found.1 h

pub Given-both :
    (Q R : MemBlock → List MemBlock → Type 0) (o : Option (MemBlock × List MemBlock))
    → Given Q o
    → Given R o
    → Given (λ b l. Q b l × R b l) o
Given-both Q R none q r = tt
Given-both Q R (some found) q r = (q, r)

module _ (size : ℕ) (used : List MemBlock) where
  module _ (P : MemBlock → Type 0) (inherits : Inherits P) where
    remainder-All :
        (block : MemBlock) (rest : List MemBlock)
        → size ≤ block.size
        → P block
        → All P rest
        → All P (remainder true size used block rest)
    unfolding remainder
    remainder-All block rest fits h hs = elim (Bool-cases (ltb ((size + 32) % 2 ^ 64) block.size)) [
      | inl e ↦ rw e (inherits block _ h (omega arith) (omega arith), hs)
      | inr e ↦ rw e hs
    ]

    pub first_fit-All :
        (free : List MemBlock)
        → All P free
        → Given (λ b left. P b × All P left) (first_fit true size used free)
    unfolding first_fit
    first_fit-All [] h = tt
    first_fit-All (block ∷ rest) h = elim (Bool-cases (leb size block.size)) [
      | inl e ↦ rw e (
        inherits block _ h.0 (omega arith) (ground arith),
        remainder-All block rest (ground arith) h.0 h.1,
      )
      | inr e ↦ rw e (
          Given-skip (λ b left. P b × All P left) (λ b left. P b × All P left) block
            (λ b l q. (q.0, (h.0, q.1))) (first_fit true size used rest) (first_fit-All rest h.1))
    ]

  remainder-Apart :
      (block : MemBlock) (rest : List MemBlock)
      → size ≤ block.size
      → All (Sep block) rest
      → Apart rest
      → let left = remainder true size used block rest in
        All (Sep (record block { size = size; in_use = true })) left × Apart left
  unfolding remainder
  remainder-Apart block rest fits hs h =
      let front =
        All-map (Sep block) (Sep (record block { size = size; in_use = true })) (λ b q. omega arith)
          rest hs in
      elim (Bool-cases (ltb ((size + 32) % 2 ^ 64) block.size)) [
        | inl e ↦
            rw e ((omega arith, front), (All-map (Sep block) _ (λ b q. omega arith) rest hs, h))
        | inr e ↦ rw e (front, h)
      ]

  -- The block taken and what is left keep apart.
  pub first_fit-Apart :
      (free : List MemBlock)
      → Apart free
      → Given (λ b left. All (Sep b) left × Apart left) (first_fit true size used free)
  unfolding first_fit
  first_fit-Apart [] h = tt
  first_fit-Apart (block ∷ rest) h = elim (Bool-cases (leb size block.size)) [
    | inl e ↦ rw e (remainder-Apart block rest (ground arith) h.0 h.1)
    | inr e ↦
        let inner =
          Given-both (λ b left. All (Sep b) left × Apart left)
            (λ b left. Sep block b × All (Sep block) left) (first_fit true size used rest)
            (first_fit-Apart rest h.1) (first_fit-All (Sep block) (Sep-inherits block) rest h.0) in
        rw e (
          Given-skip
            (λ b left. (All (Sep b) left × Apart left) × (Sep block b × All (Sep block) left))
            (λ b left. All (Sep b) left × Apart left) block
            (λ b l q. ((Sep-comm block b q.1.0, q.0.0), (q.1.1, q.0.1)))
            (first_fit true size used rest) inner)
  ]

  -- The block has the size asked for and the mark of use, and no byte is gained.
  pub first_fit-total :
      (free : List MemBlock)
      → Given
          (λ b left. (b.size ≡ size) × (b.in_use ≡ true) × (total left + b.size ≤ total free))
          (first_fit true size used free)
  unfolding first_fit remainder total
  first_fit-total [] = tt
  first_fit-total (block ∷ rest) = elim (Bool-cases (leb size block.size)) [
    | inl e ↦ rw e (refl, refl, ground arith)
    | inr e ↦ rw e (
        Given-skip
          (λ b left. (b.size ≡ size) × (b.in_use ≡ true) × (total left + b.size ≤ total rest))
          (λ b left.
            (b.size ≡ size) × (b.in_use ≡ true) × (total left + b.size ≤ block.size + total rest))
          block (λ b l q. (q.0, q.1, omega arith)) (first_fit true size used rest)
          (first_fit-total rest))
  ]
