-- ===== src/Vector/Blocks.antt =====
-- The vector routines do what their byte loops do (src/simd_optimizations.c).
use hifetch.Common.{
  ℕ, zero, suc, ◌+◌, ◌*◌, ◌/◌, ◌%◌, ◌≡◌, refl, sym, ap, ◌∙◌, inl, inr, false, ◌&&◌, List, arith,
  ◌==◌, if◌then◌else◌, leb, get_or, set, Bool-cases,
}
use hifetch.Vector.{
  Features, copy_bytes, copy_vectors, fast_string_copy_simd, same_bytes, same_vectors,
  fast_string_compare_simd,
}

copy_bytes-add :
    (m n i : ℕ) (src dest : List ℕ)
    → copy_bytes n (i + m) src (copy_bytes m i src dest) ≡ copy_bytes (m + n) i src dest
unfolding copy_bytes
copy_bytes-add zero n i src dest =
    let e : i + 0 ≡ i = omega arith in let e' : 0 + n ≡ n = omega arith in rw (e, e') refl
copy_bytes-add (suc m) n i src dest =
    let e : i + suc m ≡ suc i + m = omega arith in
    let e' : suc m + n ≡ suc (m + n) = omega arith in
    rw (e, e') (copy_bytes-add m n (suc i) src (set dest i (get_or src i 0)))

copy_vectors_lem :
    (width rounds i : ℕ) (src dest : List ℕ)
    → copy_vectors width rounds i src dest ≡ copy_bytes (rounds * width) i src dest
unfolding copy_vectors copy_bytes
copy_vectors_lem width zero i src dest = let e : 0 * width ≡ 0 = omega arith in rw e refl
copy_vectors_lem width (suc rounds) i src dest =
    let e : suc rounds * width ≡ width + rounds * width = omega arith in
    copy_vectors_lem width rounds (i + width) src (copy_bytes width i src dest)
    ∙ copy_bytes-add width (rounds * width) i src dest
    ∙ ap (λ k. copy_bytes k i src dest) (sym e)

same_bytes-add :
    (m n i : ℕ) (a b : List ℕ)
    → (if same_bytes m i a b then same_bytes n (i + m) a b else false) ≡ same_bytes (m + n) i a b
unfolding same_bytes
same_bytes-add zero n i a b =
    let e : i + 0 ≡ i = omega arith in let e' : 0 + n ≡ n = omega arith in rw (e, e') refl
same_bytes-add (suc m) n i a b =
    let e : i + suc m ≡ suc i + m = omega arith in
    let e' : suc m + n ≡ suc (m + n) = omega arith in
    elim (Bool-cases (get_or a i 0 == get_or b i 0)) [
      | inl same ↦ rw (e, e', same) (same_bytes-add m n (suc i) a b)
      | inr differ ↦ rw (e, e', differ) refl
    ]

same_vectors_lem :
    (width rounds i : ℕ) (a b : List ℕ)
    → same_vectors width rounds i a b ≡ same_bytes (rounds * width) i a b
unfolding same_vectors same_bytes
same_vectors_lem width zero i a b = let e : 0 * width ≡ 0 = omega arith in rw e refl
same_vectors_lem width (suc rounds) i a b =
    let e : suc rounds * width ≡ width + rounds * width = omega arith in
    ap (λ r. if same_bytes width i a b then r else false)
      (same_vectors_lem width rounds (i + width) a b)
    ∙ same_bytes-add width (rounds * width) i a b
    ∙ ap (λ k. same_bytes k i a b) (sym e)

copy_whole :
    (width rounds rest len : ℕ) (src dest : List ℕ)
    → rounds * width + rest ≡ len
    → copy_bytes rest (rounds * width) src (copy_vectors width rounds 0 src dest)
      ≡ copy_bytes len 0 src dest
copy_whole width rounds rest len src dest whole =
    let from_0 : 0 + rounds * width ≡ rounds * width = omega arith in
    ap (copy_bytes rest (rounds * width) src) (copy_vectors_lem width rounds 0 src dest)
    ∙ ap (λ i. copy_bytes rest i src (copy_bytes (rounds * width) 0 src dest)) (sym from_0)
    ∙ copy_bytes-add (rounds * width) rest 0 src dest
    ∙ ap (λ n. copy_bytes n 0 src dest) whole

same_whole :
    (width rounds rest len : ℕ) (a b : List ℕ)
    → rounds * width + rest ≡ len
    → (if same_vectors width rounds 0 a b then same_bytes rest (rounds * width) a b else false)
      ≡ same_bytes len 0 a b
same_whole width rounds rest len a b whole =
    let from_0 : 0 + rounds * width ≡ rounds * width = omega arith in
    ap (λ r. if r then same_bytes rest (rounds * width) a b else false)
      (same_vectors_lem width rounds 0 a b)
    ∙ ap (λ i. if same_bytes (rounds * width) 0 a b then same_bytes rest i a b else false)
        (sym from_0)
    ∙ same_bytes-add (rounds * width) rest 0 a b
    ∙ ap (λ n. same_bytes n 0 a b) whole

-- Whatever the processor has, the copy is the loop over `len` bytes, with a terminator after them.
pub fast_string_copy_simd-bytes :
    (cpu : Features) (dest src : List ℕ) (len : ℕ)
    → fast_string_copy_simd cpu dest src len ≡ set (copy_bytes len 0 src dest) len 0
unfolding fast_string_copy_simd
fast_string_copy_simd-bytes cpu dest src len = elim (Bool-cases (cpu.has_avx2 && leb 32 len)) [
  | inl wide ↦
      rw wide
        (ap (λ d. set d len 0) (copy_whole 32 (len / 32) (len % 32) len src dest (omega arith)))
  | inr narrow ↦ elim (Bool-cases (cpu.has_sse42 && leb 16 len)) [
    | inl half ↦
        rw (narrow, half)
          (ap (λ d. set d len 0) (copy_whole 16 (len / 16) (len % 16) len src dest (omega arith)))
    | inr bytes ↦ rw (narrow, bytes) refl
  ]
]

-- Whatever the processor has, the comparison is the loop over `len` bytes.
pub fast_string_compare_simd-bytes :
    (cpu : Features) (a b : List ℕ) (len : ℕ)
    → fast_string_compare_simd cpu a b len ≡ same_bytes len 0 a b
unfolding fast_string_compare_simd
fast_string_compare_simd-bytes cpu a b len = elim (Bool-cases (cpu.has_avx2 && leb 32 len)) [
  | inl wide ↦ rw wide (same_whole 32 (len / 32) (len % 32) len a b (omega arith))
  | inr narrow ↦ rw narrow refl
]
