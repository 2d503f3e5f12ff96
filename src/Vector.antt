-- ===== src/Vector.antt =====
-- The vector routines on strings (src/simd_optimizations.c). A build without an instruction set is
-- one whose flag is false. A load, store or comparison of a vector is that of its bytes in turn.
pub mod Blocks
pub mod Newlines
mod Tests
use hifetch.Common.{
  ℕ, zero, suc, ◌+◌, ◌/◌, ◌*◌, ◌%◌, Bool, true, false, ◌&&◌, ◌||◌, List, Option, none, some, ◌==◌,
  if◌then◌else◌, leb, get_or, set,
}

-- What `detect_cpu_features` leaves.
pub record Features : Type 0 where
  pub has_avx2 : Bool
  pub has_sse42 : Bool

-- `dest[i] = src[i]` for `n` indices from `i` on.
unfoldable pub copy_bytes : ℕ → ℕ → List ℕ → List ℕ → List ℕ
copy_bytes zero i src dest = dest
copy_bytes (suc n) i src dest = copy_bytes n (suc i) src (set dest i (get_or src i 0))

-- `rounds` vectors of `width` bytes.
unfoldable pub copy_vectors : ℕ → ℕ → ℕ → List ℕ → List ℕ → List ℕ
copy_vectors width zero i src dest = dest
copy_vectors width (suc rounds) i src dest =
    copy_vectors width rounds (i + width) src (copy_bytes width i src dest)

unfoldable pub fast_string_copy_simd : Features → List ℕ → List ℕ → ℕ → List ℕ
fast_string_copy_simd cpu dest src len =
    let copied =
      if cpu.has_avx2 && leb 32 len
      then copy_bytes (len % 32) (len / 32 * 32) src (copy_vectors 32 (len / 32) 0 src dest)
      else if cpu.has_sse42 && leb 16 len
      then copy_bytes (len % 16) (len / 16 * 16) src (copy_vectors 16 (len / 16) 0 src dest)
      else copy_bytes len 0 src dest in
    set copied len 0

-- `str1[i] != str2[i]` ends the loop.
unfoldable pub same_bytes : ℕ → ℕ → List ℕ → List ℕ → Bool
same_bytes zero i a b = true
same_bytes (suc n) i a b =
    let rest = same_bytes n (suc i) a b in if get_or a i 0 == get_or b i 0 then rest else false

unfoldable pub same_vectors : ℕ → ℕ → ℕ → List ℕ → List ℕ → Bool
same_vectors width zero i a b = true
same_vectors width (suc rounds) i a b =
    let rest = same_vectors width rounds (i + width) a b in
    if same_bytes width i a b then rest else false

unfoldable pub fast_string_compare_simd : Features → List ℕ → List ℕ → ℕ → Bool
fast_string_compare_simd cpu a b len =
    if cpu.has_avx2 && leb 32 len
    then (if same_vectors 32 (len / 32) 0 a b
        then same_bytes (len % 32) (len / 32 * 32) a b
        else false)
    else same_bytes len 0 a b

abbrev pub is_white : ℕ → Bool
is_white c = c == 10 || c == b' ' || c == 9

-- The mask of a vector is not zero.
unfoldable pub any_white : ℕ → ℕ → List ℕ → Bool
any_white zero i buffer = false
any_white (suc n) i buffer =
    let rest = any_white n (suc i) buffer in is_white (get_or buffer i 0) || rest

-- The loop over the bits of the mask, up to a newline.
unfoldable pub find_newline : ℕ → ℕ → List ℕ → Option ℕ
find_newline zero i buffer = none
find_newline (suc n) i buffer =
    let rest = find_newline n (suc i) buffer in
    if is_white (get_or buffer i 0)
    then (if get_or buffer i 0 == 10 then some i else rest)
    else rest

unfoldable pub find_in_vectors : ℕ → ℕ → List ℕ → Option ℕ
find_in_vectors zero i buffer = none
find_in_vectors (suc rounds) i buffer =
    let later = find_in_vectors rounds (i + 16) buffer in
    let here = if any_white 16 i buffer then find_newline 16 i buffer else none in
    elim here [ some k ↦ some k | none ↦ later ]

unfoldable pub parallel_string_processing : Features → List ℕ → ℕ → List ℕ
parallel_string_processing cpu buffer size =
    if cpu.has_sse42
    then elim (find_in_vectors (size / 16) 0 buffer) [ some k ↦ set buffer k 0 | none ↦ buffer ]
    else buffer
