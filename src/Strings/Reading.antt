-- ===== src/Strings/Reading.antt =====
-- That a command's output is read to an end (src/utils.c, `execute_cmd_fast`).
use hifetch.Common.{
  ℕ, zero, suc, ◌+◌, ◌-◌, ◌≤◌, ◌≡◌, ◌⊎◌, inl, inr, List, [], ◌++◌, arith, ◌==◌, ltb, leb, length,
  length-append, Bool-cases, Leaves,
}
use hifetch.Strings.Commands.{read_all}

-- The buffer is full, or the last read gave nothing.
Finished : (ℕ → ℕ → List ℕ) → List ℕ → Type 0
Finished fread got =
    (length got ≤ 4095)
    × ((length got ≡ 4095) ⊎ ((n : ℕ) × (length (fread n (4095 - length got)) ≡ 0)))

ends_in :
    (fread : ℕ → ℕ → List ℕ)
    → ((n limit : ℕ) → length (fread n limit) ≤ limit)
    → (fuel n : ℕ) (got : List ℕ) → length got ≤ 4095
    → 4096 ≤ fuel + length got
    → Leaves (read_all fread fuel n got) (Finished fread)
unfolding read_all Leaves Finished
ends_in fread most zero n got h enough = absurd (omega arith)
ends_in fread most (suc fuel) n got h enough = elim (Bool-cases (ltb (length got) 4095)) [
  | inr full ↦ rw (full, read_all) (h, inl (ground (arith, full, h)))
  | inl room ↦
      let more = fread n (4095 - length got) in
      let bound = most n (4095 - length got) in
      let long = length-append got more in
      elim (Bool-cases (length more == 0)) [
        | inl nothing ↦ rw (room, nothing, read_all) (h, inr (n, ground (arith, nothing)))
        | inr something ↦ elim (Bool-cases (leb 4095 (length (got ++ more)))) [
          | inl filled ↦
              rw (room, something, filled, read_all)
                (omega (arith, bound, long, h), inl (ground (arith, filled, bound, long, h)))
          | inr short ↦
              rw (room, something, short, read_all)
                (ends_in fread most fuel (suc n) (got ++ more) (ground (arith, short, long))
                  (ground (arith, something, long, enough)))
        ]
      ]
]

-- Where no read gives more bytes than it is asked for, the loop that reads a command's output ends,
-- in at most 4096 rounds, with at most 4095 bytes: either the buffer is full, or a read gave nothing.
pub read_all-Finished :
    (fread : ℕ → ℕ → List ℕ)
    → ((n limit : ℕ) → length (fread n limit) ≤ limit)
    → Leaves (read_all fread 4096 0 []) (λ got.
      (length got ≤ 4095)
      × ((length got ≡ 4095) ⊎ ((n : ℕ) × (length (fread n (4095 - length got)) ≡ 0))))
unfolding Finished
read_all-Finished fread most = ends_in fread most 4096 0 [] (omega arith) (omega arith)
