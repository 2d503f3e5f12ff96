-- ===== src/Hitop/Percents.antt =====
-- What the percentages of the processor are measured from (src/process.c, `get_processes`).
use hifetch.Common.{
  ℕ, suc, ◌+◌, ◌≤◌, ◌<◌, ◌≡◌, refl, ap, ◌∙◌, Bool, true, false, List, [], ◌∷◌, Option, none, some,
  map, if◌then◌else◌, ltb, lt→ltb, length, length-replicate, take, get_or, get_or-set_ne, set,
  replicate, arith, is_some, IsWithin, visit-collect, visit-after_all, collect, pick, cons_some,
  after_all, how_many,
}
use hifetch.Hitop.Reading.{
  StatLine, ProcEntry, Times, process_time, read_line, cpu_percent, process_of, visit_line,
  visit_process, no_process, read_processes,
}
use hifetch.Hitop.State.{Process}
use hifetch.Sysinfo.State.{Formats}

-- The times of the entries that are read, in their order.
abbrev time_some : Option StatLine → Option ℕ
time_some none = none
time_some (some line) = some (process_time line)

abbrev pub times_in : List ProcEntry → List ℕ
times_in entries = pick (λ entry. time_some (read_line entry)) entries

-- The first elements of a list are replaced.
abbrev pub overwritten : List ℕ → List ℕ → List ℕ
overwritten [] old = old
overwritten (n ∷ new) [] = []
overwritten (n ∷ new) (o ∷ old) = n ∷ overwritten new old

-- Times written one after the other from an index on.
abbrev store : ℕ → List ℕ → List ℕ → List ℕ
store i prev [] = prev
store i prev (time ∷ times) = store (suc i) (set prev i time) times

store-later :
    (i p : ℕ) (prev times : List ℕ) → store (suc i) (p ∷ prev) times ≡ p ∷ store i prev times
store-later i p prev [] = refl
store-later i p prev (time ∷ times) = store-later (suc i) p (set prev i time) times

store-nil : (i : ℕ) (times : List ℕ) → store i [] times ≡ []
store-nil i [] = refl
store-nil i (time ∷ times) = store-nil (suc i) times

store-overwritten : (prev times : List ℕ) → store 0 prev times ≡ overwritten times prev
store-overwritten prev [] = refl
store-overwritten [] (time ∷ times) = store-nil 1 times
store-overwritten (p ∷ prev) (time ∷ times) =
    store-later 0 time prev times ∙ ap (λ r. time ∷ r) (store-overwritten prev times)

module _ {D : Type 0} (f : Formats D) where
  -- The percentage of each time from the one at the same index of an array.
  abbrev pub percents : Times → ℕ → List ℕ → ℕ → List ℕ → List D
  percents t total prev i [] = []
  percents t total prev i (time ∷ times) =
      cpu_percent f t total i (get_or prev i 0) time ∷ percents t total prev (suc i) times

  percents-set :
      (t : Times) (total : ℕ) (prev : List ℕ) (times : List ℕ) (i j c : ℕ)
      → j < i
      → percents t total (set prev j c) i times ≡ percents t total prev i times
  percents-set t total prev [] i j c h = refl
  percents-set t total prev (time ∷ times) i j c h =
      rw (get_or-set_ne prev j i c 0 (λ e. ground (arith, h, e))) (
        ap (λ r. cpu_percent f t total i (get_or prev i 0) time ∷ r)
          (percents-set t total prev times (suc i) j c (omega arith)))

  -- What an entry adds.
  abbrev wanted_line : Times → ℕ → ℕ → List ℕ → Option StatLine → Option D
  wanted_line t total i prev none = none
  wanted_line t total i prev (some line) =
      some (cpu_percent f t total i (get_or prev i 0) (process_time line))

  abbrev wanted : Times → ℕ → ProcEntry → ℕ × List ℕ → Option D
  wanted t total entry s = wanted_line t total s.0 s.1 (read_line entry)

-- How the index and the array go on.
abbrev next_line : Times → ℕ → List ℕ → Option StatLine → ℕ × List ℕ
next_line t i prev none = (i, prev)
next_line t i prev (some line) =
    (suc i, if ltb i t.prev_process_count then set prev i (process_time line) else prev)

abbrev next : Times → ProcEntry → ℕ × List ℕ → ℕ × List ℕ
next t entry s = next_line t s.0 s.1 (read_line entry)

abbrev counts : ProcEntry → ℕ × List ℕ → Bool
counts entry s = is_some (time_some (read_line entry))

module _ {D : Type 0} (f : Formats D) where
  visit_line-wanted :
      (t : Times) (total : ℕ) (entry : ProcEntry) (slot : Process D) (i : ℕ) (prev : List ℕ)
      (line : Option StatLine)
      → let r = visit_line f t total entry slot i prev line in
        ((if r.1 then some r.0.cpu else none) ≡ wanted_line f t total i prev line)
        × (r.1 ≡ is_some (time_some line))
        × (r.2 ≡ next_line t i prev line)
  unfolding visit_line process_of
  visit_line-wanted t total entry slot i prev none = (refl, refl, refl)
  visit_line-wanted t total entry slot i prev (some line) = (refl, refl, refl)

  -- A list of times, with the array as it goes on.
  percents-next :
      (t : Times) (total i : ℕ) (prev : List ℕ) (line : Option StatLine) (times : List ℕ)
      → cons_some
          (wanted_line f t total i prev line)
          (percents f t total (next_line t i prev line).1 (next_line t i prev line).0 times)
        ≡ percents f t total prev i (cons_some (time_some line) times)
  percents-next t total i prev none times = refl
  percents-next t total i prev (some line) times =
      ap (λ r. cpu_percent f t total i (get_or prev i 0) (process_time line) ∷ r)
        (stored (ltb i t.prev_process_count))
    where
      stored :
          (fits : Bool)
          → percents f t total (if fits then set prev i (process_time line) else prev) (suc i) times
            ≡ percents f t total prev (suc i) times
      stored true = percents-set f t total prev times (suc i) i (process_time line) (omega arith)
      stored false = refl

  collect-percents :
      (t : Times) (total : ℕ) (entries : List ProcEntry) (i : ℕ) (prev : List ℕ)
      → collect (wanted f t total) (next t) entries (i, prev)
        ≡ percents f t total prev i (times_in entries)
  collect-percents t total [] i prev = refl
  collect-percents t total (entry ∷ entries) i prev =
      let after = next_line t i prev (read_line entry) in
      ap (cons_some (wanted_line f t total i prev (read_line entry)))
        (collect-percents t total entries after.0 after.1)
      ∙ percents-next t total i prev (read_line entry) (times_in entries)

-- What the loop stores, where all entries fit the array.
after_line-store :
    (t : Times) (i : ℕ) (prev : List ℕ) (line : Option StatLine) (times : List ℕ)
    → i + length (cons_some (time_some line) times) ≤ t.prev_process_count
    → let after = next_line t i prev line in
      (after.0 + length times ≤ t.prev_process_count)
      × (store after.0 after.1 times ≡ store i prev (cons_some (time_some line) times))
after_line-store t i prev none times fits = (fits, refl)
after_line-store t i prev (some line) times fits =
    (omega (arith, fits), rw (lt→ltb i t.prev_process_count (omega (arith, fits))) refl)

after_all-store :
    (t : Times) (entries : List ProcEntry) (i : ℕ) (prev : List ℕ)
    → i + length (times_in entries) ≤ t.prev_process_count
    → (after_all (next t) entries (i, prev)).1 ≡ store i prev (times_in entries)
after_all-store t [] i prev fits = refl
after_all-store t (entry ∷ entries) i prev fits =
    let (fits', same) = after_line-store t i prev (read_line entry) (times_in entries) fits in
    let after = next_line t i prev (read_line entry) in
    after_all-store t entries after.0 after.1 fits' ∙ same

counted_line-length :
    (line : Option StatLine) (times : List ℕ)
    → (if is_some (time_some line) then 1 else 0) + length times
      ≡ length (cons_some (time_some line) times)
counted_line-length none times = omega arith
counted_line-length (some line) times = omega arith

how_many-length :
    (t : Times) (entries : List ProcEntry) (s : ℕ × List ℕ)
    → how_many counts (next t) entries s ≡ length (times_in entries)
how_many-length t [] s = refl
how_many-length t (entry ∷ entries) s =
    ap (λ n. (if is_some (time_some (read_line entry)) then 1 else 0) + n)
      (how_many-length t entries (next t entry s))
    ∙ counted_line-length (read_line entry) (times_in entries)

module _ {D : Type 0} (f : Formats D) where
  read_processes-percents :
      (t : Times) (total : ℕ) (prev : List ℕ) (entries : List ProcEntry)
      → map (λ (p : Process D). p.cpu) (read_processes f t total prev entries).0
        ≡ take 2048 (percents f t total prev 0 (times_in entries))
  unfolding read_processes visit_process
  read_processes-percents t total prev entries =
      let start : IsWithin 2048 (record { slots = replicate 2048 (no_process f); count = 0 }) =
        record { room = length-replicate 2048 (no_process f); few = omega arith } in
      visit-collect 2048 (no_process f) (visit_process f t total) (λ (p : Process D). p.cpu)
        (wanted f t total) (next t)
        (λ entry slot s.
          let (adds, counted, goes) =
            visit_line-wanted f t total entry slot s.0 s.1 (read_line entry) in
          (adds, goes))
        entries (record { slots = replicate 2048 (no_process f); count = 0 }) (0, prev) start
      ∙ ap (take 2048) (collect-percents f t total entries 0 prev)

  read_processes-overwritten :
      (t : Times) (total : ℕ) (prev : List ℕ) (entries : List ProcEntry)
      → t.prev_process_count ≡ 2048
      → length (times_in entries) < 2048
      → (read_processes f t total prev entries).1 ≡ overwritten (times_in entries) prev
  unfolding read_processes visit_process
  read_processes-overwritten t total prev entries room fits =
      let s : ℕ × List ℕ = (0, prev) in
      ap (λ (s' : ℕ × List ℕ). s'.1)
        (visit-after_all 2048 (no_process f) (visit_process f t total) counts (next t)
          (λ entry slot s'.
            let (adds, counted, goes) =
              visit_line-wanted f t total entry slot s'.0 s'.1 (read_line entry) in
            (counted, goes))
          entries (record { slots = replicate 2048 (no_process f); count = 0 }) s
          (omega (arith, fits, how_many-length t entries s)))
      ∙ after_all-store t entries 0 prev (omega (arith, fits, room))
      ∙ store-overwritten prev (times_in entries)

  -- When the list is read twice, the percentage of each process is that of the time since the reading
  -- of the process at the same position of the first reading, whichever process that was; a position
  -- that the first reading, of fewer than 2048 processes, did not reach keeps the time before it.
  pub read_processes-read_processes :
      (t t' : Times) (total total' : ℕ) (prev : List ℕ) (entries entries' : List ProcEntry)
      → t.prev_process_count ≡ 2048
      → length (times_in entries) < 2048
      → let first = read_processes f t total prev entries in
        map (λ (p : Process D). p.cpu) (read_processes f t' total' first.1 entries').0
        ≡ take 2048
            (percents f t' total' (overwritten (times_in entries) prev) 0 (times_in entries'))
  read_processes-read_processes t t' total total' prev entries entries' room fits =
      read_processes-percents t' total' (read_processes f t total prev entries).1 entries'
      ∙ ap (λ old. take 2048 (percents f t' total' old 0 (times_in entries')))
          (read_processes-overwritten t total prev entries room fits)
