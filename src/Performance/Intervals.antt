-- ===== src/Performance/Intervals.antt =====
-- The loop that turns counters into rates (src/performance.c, in `get_io_performance` and
-- `get_network_performance`), over the kind of line, of counter and of entry.
use hifetch.Common.{
  Real, ℕ, zero, suc, ◌-◌, ◌<◌, ◌≡◌, refl, sym, ap, ◌∙◌, inl, inr, true, false, List, [], ◌∷◌, ◌++◌,
  Option, none, some, arith, if◌then◌else◌, ltb, length, length-append, take, get_or, set,
  get_or-set_ne, Option-cases,
}
use mathlib.Core.List.{append-nil, append_assoc}

-- The static variables: the counters of the entry at each index, and the last reading of the clock.
pub record Static (D C : Type 0) : Type 0 where
  pub prev : List C
  pub prev_time : D

-- The lines that count.
unfoldable pub keep_lines : {Line L : Type 0} → (Line → Option L) → List Line → List L
keep_lines keep [] = []
keep_lines keep (line ∷ lines) = elim (keep line) [
  | some l ↦ l ∷ keep_lines keep lines
  | none ↦ keep_lines keep lines
]

-- `rate d old new` is what the entry shows for a time `d`, and `entry` has no rates where the code
-- writes none. `now i` is the reading of the clock for the entry at the index `i`.
module _ {D L C R E : Type 0} (k : Real D) (counters : L → C) (rate : D → C → C → R)
    (entry : L → Option R → E) (none_yet : C) (now : ℕ → D) where
  unfoldable pub add_entry : L → List E × Static D C → List E × Static D C
  add_entry l (entries, s) =
      let i = length entries in
      let rates =
        if k.less k.zero s.prev_time
        then some (rate (k.sub (now i) s.prev_time) (get_or s.prev i none_yet) (counters l))
        else none in
      (
        entries ++ entry l rates ∷ [],
        record { prev = set s.prev i (counters l); prev_time = now i },
      )

  -- `while (line && *count < 16)`
  unfoldable pub add_entries :
      {Line : Type 0} → (Line → Option L) → List Line → List E × Static D C → List E × Static D C
  add_entries keep [] es = es
  add_entries keep (line ∷ lines) es =
      let rest =
        add_entries keep lines (elim (keep line) [ some l ↦ add_entry l es | none ↦ es ]) in
      if ltb (length es.0) 16 then rest else es

  -- Each entry is measured from the reading of the one before it, the first from the time given.
  unfoldable pub measured : ℕ → D → List C → List L → List E
  measured i began prev [] = []
  measured i began prev (l ∷ ls) =
      entry l (
        if k.less k.zero began
        then some (rate (k.sub (now i) began) (get_or prev i none_yet) (counters l))
        else none)
      ∷ measured (suc i) (now i) prev ls

  measured-set :
      (ls : List L) (i j : ℕ) (began : D) (prev : List C) (c : C)
      → j < i
      → measured i began (set prev j c) ls ≡ measured i began prev ls
  unfolding measured
  measured-set [] i j began prev c h = refl
  measured-set (l ∷ ls) i j began prev c h =
      rw (get_or-set_ne prev j i c none_yet (λ e. ground (arith, h, e))) (
        ap
          (λ r.
            entry l (
              if k.less k.zero began
              then some (rate (k.sub (now i) began) (get_or prev i none_yet) (counters l))
              else none)
            ∷ r)
          (measured-set ls (suc i) j (now i) prev c (omega arith)))

  add_entries-measured_from :
      {Line : Type 0} (keep : Line → Option L) (lines : List Line) (entries : List E) (began : D)
      (prev : List C) (room : ℕ)
      → room ≡ 16 - length entries
      → (add_entries keep lines (entries, record { prev = prev; prev_time = began })).0
        ≡ entries ++ measured (length entries) began prev (take room (keep_lines keep lines))
  unfolding add_entries add_entry measured keep_lines
  add_entries-measured_from keep [] entries began prev zero h = sym (append-nil entries)
  add_entries-measured_from keep [] entries began prev (suc room) h = sym (append-nil entries)
  add_entries-measured_from keep (line ∷ lines) entries began prev zero h =
      let full : ltb (length entries) 16 ≡ false = ground (arith, h) in
      rw full (sym (append-nil entries))
  add_entries-measured_from keep (line ∷ lines) entries began prev (suc room) h =
      let space : ltb (length entries) 16 ≡ true = ground (arith, h) in
      elim (Option-cases (keep line)) [
        | inl skipped ↦
            rw (space, skipped, keep_lines)
              (add_entries-measured_from keep lines entries began prev (suc room) h)
        | inr (l, kept) ↦
            let i = length entries in
            let c = counters l in
            let e = entry l (
              if k.less k.zero began
              then some (rate (k.sub (now i) began) (get_or prev i none_yet) c)
              else none) in
            let longer : length (entries ++ e ∷ []) ≡ suc i =
              omega (arith, length-append entries (e ∷ [])) in
            let ls = take room (keep_lines keep lines) in
            let ih =
              add_entries-measured_from keep lines (entries ++ e ∷ []) (now i) (set prev i c) room
                (omega (arith, longer, h)) in
            rw (space, kept, keep_lines)
              (ih
                ∙ append_assoc entries (e ∷ []) _
                ∙ ap (λ m. entries ++ e ∷ m)
                    (ap (λ j. measured j (now i) (set prev i c) ls) longer
                      ∙ measured-set ls (suc i) i (now i) prev c (omega arith)))
      ]

  pub add_entries-measured :
      {Line : Type 0} (keep : Line → Option L) (lines : List Line) (began : D) (prev : List C)
      → (add_entries keep lines ([], record { prev = prev; prev_time = began })).0
        ≡ measured 0 began prev (take 16 (keep_lines keep lines))
  add_entries-measured keep lines began prev =
      add_entries-measured_from keep lines [] began prev 16 refl
