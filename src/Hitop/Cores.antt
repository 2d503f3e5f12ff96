-- ===== src/Hitop/Cores.antt =====
-- Which lines of /proc/stat the tables of the processors have room for (src/process.c,
-- `get_cpu_info`).
use hifetch.Common.{
  Real, ℕ, zero, suc, ◌≤◌, ◌<◌, ◌≡◌, refl, subst, ◌∙◌, inl, inr, Bool, true, false, not, ◌&&◌, pos,
  negsuc, List, [], ◌∷◌, Option, none, some, arith, ◌==◌, ltb, length, get_elem?, get_or,
  length-set, is_some, Bool-cases,
}
use hifetch.Hitop.Meters.{
  CpuTimes, CpuInfo, Stat, all_cores, one_core, no_times, total_time, value_at, put_at, row_of,
  is_core, load, store_usage, read_stat, read_stats, get_cpu_info,
}

-- Whether a line stays in range, where `first` is the total time in row 0 of `prev_cpu_times`: not
-- with the number 31, whose row is the 33rd, nor with a negative number, except -1, whose row is row 0,
-- as long as that row is empty and nothing is written to `usage`.
has_row : ℕ → Stat → Bool
has_row first (all_cores now) = true
has_row first (one_core (negsuc zero) now) = first == 0
has_row first (one_core (negsuc (suc n)) now) = false
has_row first (one_core (pos cpu_num) now) = not (cpu_num == 31)

-- The total time in row 0 after a line that stays in range.
first_after : ℕ → Stat → ℕ
first_after first (all_cores now) = total_time now
first_after first (one_core (negsuc n) now) = total_time now
first_after first (one_core (pos cpu_num) now) = first

pub have_rows : ℕ → List Stat → Bool
have_rows first [] = true
have_rows first (stat ∷ stats) =
    let rest = have_rows (first_after first stat) stats in has_row first stat && rest

get_elem?-inside :
    {A : Type 0} → (xs : List A) (i : ℕ) → i < length xs → (x : A) × (get_elem? xs i ≡ some x)
get_elem?-inside [] i h = absurd (omega arith)
get_elem?-inside (x ∷ xs) zero h = (x, refl)
get_elem?-inside (x ∷ xs) (suc i) h = get_elem?-inside xs i (omega arith)

get_elem?-outside : {A : Type 0} → (xs : List A) (i : ℕ) → length xs ≤ i → get_elem? xs i ≡ none
get_elem?-outside [] i h = refl
get_elem?-outside (x ∷ xs) zero h = absurd (omega arith)
get_elem?-outside (x ∷ xs) (suc i) h = get_elem?-outside xs i (omega arith)

module _ {D : Type 0} (k : Real D) (percent : ℕ → ℕ → D) where
  -- A step that stays in range keeps the sizes of the tables.
  Row : Bool → ℕ → Option (CpuInfo D × List CpuTimes) → Type 0
  Row true first o =
      (state : CpuInfo D × List CpuTimes) × (o ≡ some state)
      × (length state.1 ≡ 32)
      × (length state.0.usage ≡ 32)
      × (total_time (get_or state.1 0 no_times) ≡ first)
  Row false first o = o ≡ none

  store_usage-wide :
      (old now : CpuTimes) (n : ℕ) (usage : List D)
      → n < 32
      → length usage ≡ 32
      → (usage' : List D) × (store_usage k percent old now (pos n) usage ≡ some usage')
        × (length usage' ≡ 32)
  unfolding store_usage put_at
  store_usage-wide old now n usage low wide = elim (Bool-cases (ltb 0 (total_time old))) [
    | inl seen ↦
        let room : ltb n (length usage) ≡ true = ground (arith, low, wide) in
        rw (seen, room) (_, refl, length-set usage n (load k percent old now) ∙ wide)
    | inr unseen ↦ rw unseen (usage, refl, wide)
  ]

  read_stat-Row :
      (stat : Stat) (cpu : CpuInfo D) (old : CpuTimes) (rest : List CpuTimes)
      → length (old ∷ rest) ≡ 32
      → length cpu.usage ≡ 32
      → Row
          (has_row (total_time old) stat)
          (first_after (total_time old) stat)
          (read_stat k percent stat (cpu, old ∷ rest))
  unfolding Row has_row first_after read_stat value_at put_at is_core row_of store_usage
  read_stat-Row (all_cores now) cpu old rest h wide =
      let room : ltb 0 (length (old ∷ rest)) ≡ true = ground arith in
      rw (room, read_stat) (_, refl, h, wide, refl)
  read_stat-Row (one_core (negsuc zero) now) cpu old rest h wide =
      let room : ltb 0 (length (old ∷ rest)) ≡ true = ground arith in
      elim (Bool-cases (total_time old == 0)) [
        | inl unseen ↦
            let none_before : ltb 0 (total_time old) ≡ false = ground (arith, unseen) in
            rw (unseen, none_before, room) (_, refl, h, wide, refl)
        | inr seen ↦
            let some_before : ltb 0 (total_time old) ≡ true = ground (arith, seen) in
            rw (seen, some_before) refl
      ]
  read_stat-Row (one_core (negsuc (suc n)) now) cpu old rest h wide = refl
  read_stat-Row (one_core (pos n) now) cpu old rest h wide = elim (Bool-cases (ltb n 32)) [
    | inr beyond ↦
        let other : (n == 31) ≡ false = ground (arith, beyond) in
        rw (other, beyond) (_, refl, h, wide, refl)
    | inl low ↦ elim (Bool-cases (n == 31)) [
      | inl last ↦
          let out = get_elem?-outside rest n (ground (arith, last, h)) in rw (last, low, out) refl
      | inr other ↦
          let (row, found) = get_elem?-inside rest n (ground (arith, low, other, h)) in
          let (usage, stored, wide') =
            store_usage-wide row now n cpu.usage (ground (arith, low)) wide in
          let room : ltb (suc n) (length (old ∷ rest)) ≡ true = ground (arith, low, other, h) in
          rw (other, low, found, stored, room)
            (_, refl, length-set (old ∷ rest) (suc n) now ∙ h, wide', refl)
    ]
  ]

  read_stats-rows :
      (stats : List Stat) (state : CpuInfo D × List CpuTimes)
      → length state.1 ≡ 32
      → length state.0.usage ≡ 32
      → is_some (read_stats k percent stats state)
        ≡ have_rows (total_time (get_or state.1 0 no_times)) stats
  unfolding read_stats have_rows Row
  read_stats-rows [] state h wide = refl
  read_stats-rows (stat ∷ stats) (cpu, []) h wide = absurd (omega (arith, h))
  read_stats-rows (stat ∷ stats) (cpu, old ∷ rest) h wide =
      let step = read_stat k percent stat (cpu, old ∷ rest) in
      let first = first_after (total_time old) stat in
      elim (Bool-cases (has_row (total_time old) stat)) [
        | inl fits ↦
            let row : Row true first step =
              subst (λ b. Row b first step) fits (read_stat-Row stat cpu old rest h wide) in
            let (next, read, h', wide', kept) = row in
            rw (read, read_stats, fits, ← kept) (read_stats-rows stats next h' wide')
        | inr out ↦
            let row : Row false first step =
              subst (λ b. Row b first step) out (read_stat-Row stat cpu old rest h wide) in
            rw (row, read_stats, out) refl
      ]

  -- With the 32 rows of `prev_cpu_times` and the 32 values of `usage`, `get_cpu_info` reads and writes
  -- inside both just when no line of the file is of a processor with the number 31, whose row would be
  -- the 33rd, or with a number below -1, or with the number -1 after row 0 holds a time that is not 0.
  pub get_cpu_info-rows :
      (stats : List Stat) (cpu : CpuInfo D) (prev : List CpuTimes)
      → length prev ≡ 32
      → length cpu.usage ≡ 32
      → is_some (get_cpu_info k percent (some stats) (cpu, prev))
        ≡ have_rows (total_time (get_or prev 0 no_times)) stats
  unfolding get_cpu_info
  get_cpu_info-rows stats cpu prev h wide =
      read_stats-rows stats (record cpu { total_usage = k.zero; cores = 0 }, prev) h wide
