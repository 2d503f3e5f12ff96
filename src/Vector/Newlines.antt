-- ===== src/Vector/Newlines.antt =====
-- Where the vectors find a newline (src/simd_optimizations.c, `parallel_string_processing`).
use hifetch.Common.{
  ℕ, zero, suc, ◌+◌, ◌*◌, ◌/◌, ◌≤◌, ◌<◌, ◌≡◌, ◌≢◌, refl, subst, inl, inr, true, false, List, arith,
  ◌==◌, if◌then◌else◌, Option, none, some, get_or, set, ltb, ltb→lt, ◌⊎◌, Bool-cases, Option-cases,
  ==_iff,
}
use hifetch.Vector.{
  Features, is_white, any_white, find_newline, find_in_vectors, parallel_string_processing,
}

-- What a search over the indices from `i` up to `j` answers.
unfoldable pub Finds : ℕ → ℕ → List ℕ → Option ℕ → Type 0
Finds i j buffer (some k) =
    (i ≤ k)
    × (k < j)
    × (get_or buffer k 0 ≡ 10)
    × ((m : ℕ) → i ≤ m → m < k → get_or buffer m 0 ≢ 10)
Finds i j buffer none = (m : ℕ) → i ≤ m → m < j → get_or buffer m 0 ≢ 10

no_white :
    (n i : ℕ) (buffer : List ℕ)
    → any_white n i buffer ≡ false
    → (m : ℕ) → i ≤ m
    → m < i + n
    → get_or buffer m 0 ≢ 10
unfolding any_white
no_white zero i buffer h m low high e = absurd (omega arith)
no_white (suc n) i buffer h m low high e = elim (Bool-cases (m == i)) [
  | inl same ↦
      let here : get_or buffer i 0 ≡ 10 =
        subst (λ k. get_or buffer k 0 ≡ 10) ((==_iff m i).0 same) e in
      ground (arith, h, here)
  | inr other ↦
      no_white n (suc i) buffer (ground (arith, h)) m (ground (arith, other)) (omega arith) e
]

first_or_later :
    (i j : ℕ) (buffer : List ℕ) (o : Option ℕ)
    → get_or buffer i 0 ≢ 10
    → Finds (suc i) j buffer o
    → Finds i j buffer o
unfolding Finds
first_or_later i j buffer (some k) h (low, high, at, before) = (
  omega arith,
  high,
  at,
  λ m lo hi e. elim (Bool-cases (m == i)) [
    | inl same ↦ h (subst (λ k. get_or buffer k 0 ≡ 10) ((==_iff m i).0 same) e)
    | inr other ↦ before m (ground (arith, other)) hi e
  ],
)
first_or_later i j buffer none h none_later = λ m lo hi e. elim (Bool-cases (m == i)) [
  | inl same ↦ h (subst (λ k. get_or buffer k 0 ≡ 10) ((==_iff m i).0 same) e)
  | inr other ↦ none_later m (ground (arith, other)) hi e
]

find_newline_lem : (n i : ℕ) (buffer : List ℕ) → Finds i (i + n) buffer (find_newline n i buffer)
unfolding find_newline Finds
find_newline_lem zero i buffer = λ m lo hi e. omega arith
find_newline_lem (suc n) i buffer =
    let last : suc i + n ≡ i + suc n = omega arith in
    elim (Bool-cases (get_or buffer i 0 == 10)) [
      | inl newline ↦
          let white : is_white (get_or buffer i 0) ≡ true = ground (arith, newline) in
          rw (white, newline)
            (
              omega arith,
              omega arith,
              (==_iff (get_or buffer i 0) 10).0 newline,
              λ m lo hi e. omega arith,
            )
      | inr other ↦
          let later =
            first_or_later i (suc i + n) buffer (find_newline n (suc i) buffer)
              (λ e. ground (arith, other, e)) (find_newline_lem n (suc i) buffer) in
          let there = subst (λ j. Finds i j buffer (find_newline n (suc i) buffer)) last later in
          elim (Bool-cases (is_white (get_or buffer i 0))) [
            | inl white ↦ rw (white, other) there
            | inr black ↦ rw black there
          ]
    ]

vector_lem :
    (i : ℕ) (buffer : List ℕ)
    → Finds i (i + 16) buffer (if any_white 16 i buffer then find_newline 16 i buffer else none)
unfolding Finds
vector_lem i buffer = elim (Bool-cases (any_white 16 i buffer)) [
  | inl some_white ↦ rw some_white (find_newline_lem 16 i buffer)
  | inr none_white ↦ rw none_white (no_white 16 i buffer none_white)
]

either-Finds :
    (i j k : ℕ) (buffer : List ℕ) (here later : Option ℕ)
    → i ≤ j
    → j ≤ k
    → Finds i j buffer here
    → Finds j k buffer later
    → Finds i k buffer (elim here [ some k ↦ some k | none ↦ later ])
unfolding Finds
either-Finds i j k buffer (some m) later ij jk (low, high, at, before) h =
    (low, omega arith, at, before)
either-Finds i j k buffer none (some m) ij jk h (low, high, at, before) = (
  omega arith,
  high,
  at,
  λ n lo hi e. elim (Bool-cases (ltb n j)) [
    | inl first ↦ h n lo (ltb→lt n j first) e
    | inr second ↦ before n (ground (arith, second)) hi e
  ],
)
either-Finds i j k buffer none none ij jk h h' = λ n lo hi e. elim (Bool-cases (ltb n j)) [
  | inl first ↦ h n lo (ltb→lt n j first) e
  | inr second ↦ h' n (ground (arith, second)) hi e
]

find_in_vectors_lem :
    (rounds i : ℕ) (buffer : List ℕ)
    → Finds i (i + rounds * 16) buffer (find_in_vectors rounds i buffer)
unfolding find_in_vectors Finds
find_in_vectors_lem zero i buffer = λ m lo hi e. omega arith
find_in_vectors_lem (suc rounds) i buffer =
    let last : i + 16 + rounds * 16 ≡ i + suc rounds * 16 = omega arith in
    either-Finds i (i + 16) (i + suc rounds * 16) buffer _ (find_in_vectors rounds (i + 16) buffer)
      (omega arith) (omega arith) (vector_lem i buffer)
      (subst (λ j. Finds (i + 16) j buffer (find_in_vectors rounds (i + 16) buffer)) last
        (find_in_vectors_lem rounds (i + 16) buffer))

found_none :
    (i j : ℕ) (buffer : List ℕ)
    → Finds i j buffer none
    → (m : ℕ) → i ≤ m
    → m < j
    → get_or buffer m 0 ≢ 10
unfolding Finds
found_none i j buffer h = h

found_some :
    (i j k : ℕ) (buffer : List ℕ)
    → Finds i j buffer (some k)
    → (i ≤ k)
      × (k < j)
      × (get_or buffer k 0 ≡ 10)
      × ((m : ℕ) → i ≤ m → m < k → get_or buffer m 0 ≢ 10)
unfolding Finds
found_some i j k buffer h = h

-- With SSE4.2, `parallel_string_processing` puts a terminator in place of the first newline among
-- the first `size / 16 * 16` bytes, and where there is none leaves the buffer as it is: the bytes
-- after the last whole vector are not searched.
pub parallel_string_processing-cuts :
    (cpu : Features) (buffer : List ℕ) (size : ℕ)
    → cpu.has_sse42 ≡ true
    → ((k : ℕ) × (k < size / 16 * 16)
        × (get_or buffer k 0 ≡ 10)
        × ((m : ℕ) → m < k → get_or buffer m 0 ≢ 10)
        × (parallel_string_processing cpu buffer size ≡ set buffer k 0))
      ⊎ (((m : ℕ) → m < size / 16 * 16 → get_or buffer m 0 ≢ 10)
          × (parallel_string_processing cpu buffer size ≡ buffer))
unfolding parallel_string_processing
parallel_string_processing-cuts cpu buffer size sse =
    let search = find_in_vectors_lem (size / 16) 0 buffer in
    elim (Option-cases (find_in_vectors (size / 16) 0 buffer)) [
      | inl no_newline ↦
          let absent = found_none 0 _ buffer (subst (Finds 0 _ buffer) no_newline search) in
          inr (
            λ m h. absent m (omega arith) (omega arith),
            rw (sse, no_newline, parallel_string_processing) refl,
          )
      | inr (k, e) ↦
          let (low, high, at, before) =
            found_some 0 _ k buffer (subst (Finds 0 _ buffer) e search) in
          inl (
            k,
            omega (arith, high),
            at,
            λ m h. before m (omega arith) h,
            rw (sse, e, parallel_string_processing) refl,
          )
    ]
