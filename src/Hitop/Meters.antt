-- ===== src/Hitop/Meters.antt =====
-- The load of the processors (src/process.c, `get_cpu_info`), its history (src/hitop.c,
-- `update_history`) and the graph of it (`draw_cpu_graph`).
use hifetch.Common.{
  codes, Real, ℕ, zero, suc, ◌+◌, ◌-◌, ◌%◌, ◌^◌, Bool, true, false, ◌&&◌, ◌||◌, ℤ, pos, negsuc,
  List, [], ◌∷◌, Option, none, some, ◌==◌, if◌then◌else◌, ltb, leb, length, drop, get_elem?, get_or,
  set, str_eq, starts_with, sub64,
}

abbrev pub max_cpu_cores : ℕ
max_cpu_cores = 32

abbrev pub history_size : ℕ
history_size = 60

abbrev pub graph_width : ℕ
graph_width = 50

abbrev pub graph_height : ℕ
graph_height = 8

-- The seven values of a row of `prev_cpu_times`.
pub record CpuTimes : Type 0 where
  pub user : ℕ
  pub nice : ℕ
  pub system : ℕ
  pub idle : ℕ
  pub iowait : ℕ
  pub irq : ℕ
  pub softirq : ℕ

-- `freq` and `temp` are written nowhere.
pub record CpuInfo (D : Type 0) : Type 0 where
  pub usage : List D
  pub cores : ℕ
  pub total_usage : D
  pub history : List D
  pub history_pos : ℕ

abbrev pub no_times : CpuTimes
no_times = record { user = 0; nice = 0; system = 0; idle = 0; iowait = 0; irq = 0; softirq = 0 }

unfoldable pub work_time : CpuTimes → ℕ
work_time t = (t.user + t.nice + t.system) % 2 ^ 64

unfoldable pub total_time : CpuTimes → ℕ
total_time t = (t.user + t.nice + t.system + t.idle + t.iowait + t.irq + t.softirq) % 2 ^ 64

-- A line of /proc/stat: of all processors, or of one.
pub data Stat : Type 0 where
  all_cores : CpuTimes → Stat
  one_core : ℤ → CpuTimes → Stat

-- "cpu"
abbrev pub cpu_word : List ℕ
cpu_word = codes "cpu"

module _ (scan : List ℕ → Option (List ℕ × CpuTimes)) (atoi : List ℕ → ℤ) where
  -- `scan` is the `sscanf` of a name and seven numbers.
  unfoldable pub stat_of : List ℕ → Option Stat
  stat_of line =
      if starts_with line cpu_word
      then (elim (scan line) [
        | none ↦ none
        | some found ↦
            if str_eq found.0 cpu_word
            then some (all_cores found.1)
            else if starts_with found.0 cpu_word && ltb 3 (length found.0)
            then some (one_core (atoi (drop 3 found.0)) found.1)
            else none
      ])
      else none

module _ {D : Type 0} where
  unfoldable pub update_history : D → List D × ℕ → List D × ℕ
  update_history value (history, at) = (set history at value, (at + 1) % history_size)

module _ {A : Type 0} where
  -- A read of an array at an index of C; `none` is out of range.
  unfoldable pub value_at : List A → ℤ → Option A
  value_at xs (pos i) = get_elem? xs i
  value_at xs (negsuc i) = none

  -- A write.
  unfoldable pub put_at : List A → ℤ → A → Option (List A)
  put_at xs (pos i) x = if ltb i (length xs) then some (set xs i x) else none
  put_at xs (negsuc i) x = none

-- The row `cpu_num + 1`.
unfoldable pub row_of : ℤ → ℤ
row_of (pos n) = pos (suc n)
row_of (negsuc zero) = pos 0
row_of (negsuc (suc n)) = negsuc n

-- The number of a row, which is not negative once the row is written.
abbrev row_number : ℤ → ℕ
row_number (pos n) = n
row_number (negsuc n) = 0

-- `cpu_num < MAX_CPU_CORES`, also for a negative number.
unfoldable pub is_core : ℤ → Bool
is_core (pos n) = ltb n max_cpu_cores
is_core (negsuc n) = true

-- `percent a b` is `(double)a / b * 100.0`.
module _ {D : Type 0} (k : Real D) (percent : ℕ → ℕ → D) where
  -- The load between two readings.
  abbrev pub load : CpuTimes → CpuTimes → D
  load prev now =
      let total_diff = sub64 (total_time now) (total_time prev) in
      let work_diff = sub64 (work_time now) (work_time prev) in
      if ltb 0 total_diff then percent work_diff total_diff else k.zero

  -- Without a first reading the field keeps its value.
  unfoldable pub usage_after : CpuTimes → CpuTimes → D → D
  usage_after prev now field = if ltb 0 (total_time prev) then load prev now else field

  -- `usage[cpu_num]` is written only after a first reading.
  unfoldable pub store_usage : CpuTimes → CpuTimes → ℤ → List D → Option (List D)
  store_usage prev now cpu_num usage =
      if ltb 0 (total_time prev) then put_at usage cpu_num (load prev now) else some usage

  -- One line; `none` where the code reads or writes outside `prev_cpu_times` or `usage`.
  unfoldable pub read_stat : Stat → CpuInfo D × List CpuTimes → Option (CpuInfo D × List CpuTimes)
  read_stat (all_cores now) (cpu, prev) = elim (value_at prev (pos 0)) [
    | none ↦ none
    | some old ↦
        let total_usage = usage_after old now cpu.total_usage in
        let (history, at) = update_history total_usage (cpu.history, cpu.history_pos) in
        elim (put_at prev (pos 0) now) [
          | none ↦ none
          | some times ↦
              some (
                record cpu { total_usage = total_usage; history = history; history_pos = at },
                times,
              )
        ]
  ]
  read_stat (one_core cpu_num now) (cpu, prev) =
      if is_core cpu_num
      then (elim (value_at prev (row_of cpu_num)) [
        | none ↦ none
        | some old ↦ elim (store_usage old now cpu_num cpu.usage) [
          | none ↦ none
          | some usage ↦ elim (put_at prev (row_of cpu_num) now) [
            | none ↦ none
            | some times ↦
                some (record cpu { usage = usage; cores = row_number (row_of cpu_num) }, times)
          ]
        ]
      ])
      else some (cpu, prev)

  -- The loop over the lines of /proc/stat; `core` stays 0 in it.
  unfoldable pub read_stats :
      List Stat → CpuInfo D × List CpuTimes → Option (CpuInfo D × List CpuTimes)
  read_stats [] state = some state
  read_stats (stat ∷ stats) state = elim (read_stat stat state) [
    | some next ↦ read_stats stats next
    | none ↦ none
  ]

  -- `none` for the list is a file that cannot be opened.
  unfoldable pub get_cpu_info :
      Option (List Stat) → CpuInfo D × List CpuTimes → Option (CpuInfo D × List CpuTimes)
  get_cpu_info none state = some state
  get_cpu_info (some stats) (cpu, prev) =
      read_stats stats (record cpu { total_usage = k.zero; cores = 0 }, prev)

-- `bar_height value` is `(int)(value / 100.0 * height)`, not negative.
module _ {D : Type 0} (k : Real D) (bar_height : D → ℕ) where
  -- The value of a column of the graph.
  unfoldable pub column_value : List D × ℕ → ℕ → D
  column_value (history, at) j =
      let hist_pos = (at + history_size - graph_width) % history_size in
      get_or history ((hist_pos + j) % history_size) k.zero

  -- Whether one of the first `n` rounds over `i` draws a block `r` rows below the box's border.
  unfoldable pub drawn_by : ℕ → ℕ → ℕ → Bool
  drawn_by zero bar r = false
  drawn_by (suc i) bar r =
      (leb graph_height (i + bar) && (graph_height - i == r)) || drawn_by i bar r

  -- Whether the graph has a block in a column, `r` rows below the border.
  unfoldable pub draw_cpu_graph : List D × ℕ → ℕ → ℕ → Bool
  draw_cpu_graph ring j r = drawn_by graph_height (bar_height (column_value ring j)) r
