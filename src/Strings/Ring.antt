-- ===== src/Strings/Ring.antt =====
-- How long a caller may keep the output of a command (src/utils.c, `execute_cmd_fast`).
use hifetch.Common.{
  some_inj, ℕ, suc, ◌+◌, ◌%◌, ◌≤◌, ◌<◌, ◌≡◌, ◌≢◌, refl, sym, ap, ◌∙◌, inl, inr, Bool, true, ◌||◌,
  List, [], ◌∷◌, Option, none, some, arith, ◌==◌, if◌then◌else◌, ltb, length, get_or, get_or-set_ne,
  Bool-cases, Option-cases,
}
use hifetch.Strings.Commands.{
  Buffers, Pointer, pooled, in_fallback, text_at, optimize_memory_pools, write_to, take_buffer,
  read_all, read_into, execute_cmd_fast, c_string, new_buffers,
}
use hifetch.Strings.{trim_string}

pooled_inj : {i j : ℕ} → pooled i ≡ pooled j → i ≡ j
pooled_inj e = ap (λ p. elim p [ pooled i ↦ i | in_fallback ↦ 0 ]) e

-- A call: what it is given, and what `popen` and the reads answer.
pub record Run : Type 0 where
  pub cmd : Option (List ℕ)
  pub popen : Option (ℕ → ℕ → List ℕ)

unfoldable pub after_runs : (ℕ → Bool) → List Run → Buffers → Buffers
after_runs maps [] b = b
after_runs maps (r ∷ runs) b = after_runs maps runs (execute_cmd_fast maps r.cmd r.popen b).1

-- The buffer `i` holds this, and the next one to be taken is `d` further on.
record Ahead (i : ℕ) (held : Option (List ℕ)) (d : ℕ) (b : Buffers) : Type 0 where
  ready : b.pool_initialized ≡ true
  next : b.pool_index ≡ (i + d) % 256
  holds : get_or b.buffers i none ≡ held

-- A call moves one buffer on at most.
Moves : ℕ → Option (List ℕ) → ℕ → Buffers → Type 0
Moves i held d b = (d' : ℕ) × (1 ≤ d') × (d' ≤ suc d) × Ahead i held d' b

write_to-holds :
    (i : ℕ) (held : Option (List ℕ)) (d : ℕ) (p : Pointer) (text : List ℕ) (b : Buffers)
    → ((j : ℕ) → p ≡ pooled j → i ≢ j)
    → Ahead i held d b
    → Ahead i held d (write_to p text b)
unfolding write_to
write_to-holds i held d (pooled j) text b apart h = record {
  ready = h.ready;
  next = h.next;
  holds = get_or-set_ne b.buffers j i (some text) none (λ e. apart j refl (sym e)) ∙ h.holds;
}
write_to-holds i held d in_fallback text b apart h = record {
  ready = h.ready;
  next = h.next;
  holds = h.holds;
}

take_buffer-Ahead :
    (i : ℕ) (held : Option (List ℕ)) (d : ℕ) (b : Buffers)
    → i < 256
    → 1 ≤ d
    → d ≤ 255
    → Ahead i held d b
    → Ahead i held (suc d) (take_buffer b).1 × ((j : ℕ) → (take_buffer b).0 ≡ pooled j → i ≢ j)
unfolding take_buffer
take_buffer-Ahead i held d b low one far h =
    let here : (i + d) % 256 ≢ i = λ e. ground (arith, e, low, one, far) in
    let index : b.pool_index % 256 ≡ (i + d) % 256 = omega (arith, h.next) in
    let next : (b.pool_index + 1) % 256 ≡ (i + suc d) % 256 = omega (arith, h.next) in
    elim (Option-cases (get_or b.buffers (b.pool_index % 256) none)) [
      | inr (text, e) ↦
          rw (e, take_buffer)
            (
              record { ready = h.ready; next = next; holds = h.holds },
              λ j same at_j. here (sym index ∙ pooled_inj same ∙ sym at_j),
            )
      | inl e ↦
          rw (e, take_buffer)
            (
              record { ready = h.ready; next = next; holds = h.holds },
              λ j same. ground (arith, same),
            )
    ]

read_into-Ahead :
    (i : ℕ) (held : Option (List ℕ)) (d : ℕ) (popen : Option (ℕ → ℕ → List ℕ)) (p : Pointer)
    (b : Buffers)
    → ((j : ℕ) → p ≡ pooled j → i ≢ j)
    → Ahead i held d b
    → Ahead i held d (read_into popen (p, b)).1
unfolding read_into
read_into-Ahead i held d none p b apart h = h
read_into-Ahead i held d (some fread) p b apart h = elim (Option-cases (read_all fread 4096 0 [])) [
  | inl e ↦ rw (e, read_into) h
  | inr (got, e) ↦
      rw (e, read_into) (write_to-holds i held d p (trim_string (c_string got)) b apart h)
]

run-Moves :
    (maps : ℕ → Bool) (i : ℕ) (held : Option (List ℕ)) (d : ℕ) (cmd : Option (List ℕ))
    (popen : Option (ℕ → ℕ → List ℕ)) (b : Buffers)
    → i < 256
    → 1 ≤ d
    → d ≤ 255
    → Ahead i held d b
    → Moves i held d (execute_cmd_fast maps cmd popen b).1
unfolding execute_cmd_fast Moves optimize_memory_pools
run-Moves maps i held d none popen b low one far h = (d, one, omega arith, h)
run-Moves maps i held d (some cmd) popen b low one far h =
    elim (Bool-cases ((length cmd == 0) || ltb 2048 (length cmd))) [
      | inl refused ↦ rw refused (d, one, omega arith, h)
      | inr good ↦
          let same : optimize_memory_pools maps b ≡ b = rw (h.ready, optimize_memory_pools) refl in
          let (moved, apart) = take_buffer-Ahead i held d b low one far h in
          rw (good, same)
            (
              suc d,
              omega arith,
              omega arith,
              read_into-Ahead i held (suc d) popen (take_buffer b).0 (take_buffer b).1 apart moved,
            )
    ]

runs-hold :
    (maps : ℕ → Bool) (i : ℕ) (held : Option (List ℕ)) (runs : List Run) (d : ℕ) (b : Buffers)
    → i < 256
    → 1 ≤ d
    → d + length runs ≤ 256
    → Ahead i held d b
    → get_or (after_runs maps runs b).buffers i none ≡ held
unfolding after_runs Moves
runs-hold maps i held [] d b low one few h = h.holds
runs-hold maps i held (r ∷ runs) d b low one few h =
    let (d', one', near, h') =
      run-Moves maps i held d r.cmd r.popen b low one (omega (arith, few)) h in
    runs-hold maps i held runs d' (execute_cmd_fast maps r.cmd r.popen b).1 low one'
      (omega (arith, few, near)) h'

-- The buffer `i` was the last to be taken.
record Taken (i : ℕ) (b : Buffers) : Type 0 where
  low : i < 256
  ready : b.pool_initialized ≡ true
  next : b.pool_index ≡ (i + 1) % 256

take_buffer-Taken :
    (i : ℕ) (b : Buffers)
    → b.pool_initialized ≡ true
    → (take_buffer b).0 ≡ pooled i
    → Taken i (take_buffer b).1
unfolding take_buffer
take_buffer-Taken i b ready = elim (Option-cases (get_or b.buffers (b.pool_index % 256) none)) [
  | inr (text, e) ↦
      rw (e, take_buffer)
        (λ h.
          let same : b.pool_index % 256 ≡ i = pooled_inj h in
          record { low = omega (arith, same); ready = ready; next = omega (arith, same) })
  | inl e ↦ rw (e, take_buffer) (λ h. ground (arith, h))
]

write_to-Taken :
    (i : ℕ) (p : Pointer) (text : List ℕ) (b : Buffers) → Taken i b → Taken i (write_to p text b)
unfolding write_to
write_to-Taken i (pooled j) text b h = record { low = h.low; ready = h.ready; next = h.next }
write_to-Taken i in_fallback text b h = record { low = h.low; ready = h.ready; next = h.next }

read_into-Taken :
    (i : ℕ) (popen : Option (ℕ → ℕ → List ℕ)) (p : Pointer) (b : Buffers)
    → (p ≡ pooled i → Taken i b)
    → (read_into popen (p, b)).0 ≡ some (pooled i)
    → Taken i (read_into popen (p, b)).1
unfolding read_into
read_into-Taken i none p b taken = λ h. ground (arith, h)
read_into-Taken i (some fread) p b taken = elim (Option-cases (read_all fread 4096 0 [])) [
  | inl e ↦ rw (e, read_into) (λ h. ground (arith, h))
  | inr (got, e) ↦
      let text = trim_string (c_string got) in
      rw (e, read_into)
        (elim (Bool-cases (length text == 0)) [
          | inl empty ↦ rw empty (λ h. ground (arith, h))
          | inr filled ↦ rw filled (λ h. write_to-Taken i p text b (taken (some_inj h)))
        ])
]

initialized :
    (maps : ℕ → Bool) (b : Buffers) → (optimize_memory_pools maps b).pool_initialized ≡ true
unfolding optimize_memory_pools
initialized maps b =
    let fresh : Buffers = record b { buffers = new_buffers maps 256; pool_initialized = true } in
    let after : Bool → Bool = λ c. (if c then b else fresh).pool_initialized in
    elim (Bool-cases b.pool_initialized) [
      | inl ready ↦ ap after ready ∙ ready
      | inr cold ↦ ap after cold
    ]

run-Taken :
    (maps : ℕ → Bool) (i : ℕ) (cmd : Option (List ℕ)) (popen : Option (ℕ → ℕ → List ℕ))
    (b : Buffers)
    → (execute_cmd_fast maps cmd popen b).0 ≡ some (pooled i)
    → Taken i (execute_cmd_fast maps cmd popen b).1
unfolding execute_cmd_fast optimize_memory_pools
run-Taken maps i none popen b = λ h. ground (arith, h)
run-Taken maps i (some cmd) popen b =
    elim (Bool-cases ((length cmd == 0) || ltb 2048 (length cmd))) [
      | inl refused ↦ rw refused (λ h. ground (arith, h))
      | inr good ↦
          let ready = initialized maps b in
          rw good (
            read_into-Taken i popen (take_buffer (optimize_memory_pools maps b)).0
              (take_buffer (optimize_memory_pools maps b)).1
              (take_buffer-Taken i (optimize_memory_pools maps b) ready))
    ]

-- The output that `execute_cmd_fast` returns in a buffer of the pool stays as it is through the next
-- 255 calls, whatever they are given and whatever their commands print.
pub text_at-execute_cmd_fast :
    (maps : ℕ → Bool) (cmd : Option (List ℕ)) (popen : Option (ℕ → ℕ → List ℕ)) (b : Buffers)
    (i : ℕ)
    → (execute_cmd_fast maps cmd popen b).0 ≡ some (pooled i)
    → (runs : List Run) → length runs ≤ 255
    → let b' = (execute_cmd_fast maps cmd popen b).1 in
      text_at (pooled i) (after_runs maps runs b') ≡ text_at (pooled i) b'
unfolding text_at
text_at-execute_cmd_fast maps cmd popen b i h runs few =
    let b' = (execute_cmd_fast maps cmd popen b).1 in
    let taken = run-Taken maps i cmd popen b h in
    runs-hold maps i (get_or b'.buffers i none) runs 1 b' taken.low (omega arith)
      (omega (arith, few)) (record { ready = taken.ready; next = taken.next; holds = refl })
