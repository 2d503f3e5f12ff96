-- ===== src/Vector/Tests.antt =====
-- The vector routines at concrete inputs.
use hifetch.Common.{ℕ, List, ◌∷◌, ◌≡◌, refl, true, set, replicate, get_or, ◌≢◌, ◌<◌, ◌⊎◌}
use hifetch.Vector.Blocks.{fast_string_copy_simd-bytes, fast_string_compare_simd-bytes}
use hifetch.Vector.Newlines.{parallel_string_processing-cuts}
use hifetch.Vector.{
  parallel_string_processing, Features, copy_bytes, fast_string_copy_simd, same_bytes,
  fast_string_compare_simd,
}

abbrev avx2 : Features
avx2 = record { has_avx2 = true; has_sse42 = true }

fast_string_copy_simd-bytes_example :
    fast_string_copy_simd avx2 (replicate 40 7) (replicate 40 9) 35
    ≡ set (copy_bytes 35 0 (replicate 40 9) (replicate 40 7)) 35 0
fast_string_copy_simd-bytes_example =
    fast_string_copy_simd-bytes avx2 (replicate 40 7) (replicate 40 9) 35

fast_string_compare_simd-bytes_example :
    fast_string_compare_simd avx2 (replicate 40 9) (set (replicate 40 9) 33 8) 35
    ≡ same_bytes 35 0 (replicate 40 9) (set (replicate 40 9) 33 8)
fast_string_compare_simd-bytes_example =
    fast_string_compare_simd-bytes avx2 (replicate 40 9) (set (replicate 40 9) 33 8) 35

abbrev lines : List ℕ
lines = 65 ∷ 32 ∷ 10 ∷ replicate 20 66

parallel_string_processing-cuts_example :
    ((k : ℕ) × (k < 16)
      × (get_or lines k 0 ≡ 10)
      × ((m : ℕ) → m < k → get_or lines m 0 ≢ 10)
      × (parallel_string_processing avx2 lines 23 ≡ set lines k 0))
    ⊎ (((m : ℕ) → m < 16 → get_or lines m 0 ≢ 10)
        × (parallel_string_processing avx2 lines 23 ≡ lines))
parallel_string_processing-cuts_example = parallel_string_processing-cuts avx2 lines 23 refl
