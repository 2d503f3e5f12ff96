-- ===== src/Hitop/Meminfo.antt =====
-- The memory that is in use (src/process.c, `get_mem_info`).
use hifetch.Common.{
  codes, Real, ℕ, List, [], ◌∷◌, Option, none, some, if◌then◌else◌, ltb, starts_with, sub64,
}
use hifetch.Hitop.Meters.{update_history}

pub record MemInfo (D : Type 0) : Type 0 where
  pub total : ℕ
  pub used : ℕ
  pub available : ℕ
  pub buffers : ℕ
  pub cached : ℕ
  pub swap_total : ℕ
  pub swap_used : ℕ
  pub usage_percent : D
  pub swap_percent : D
  pub history : List D
  pub history_pos : ℕ

-- "SwapFree:"
abbrev pub swap_free_word : List ℕ
swap_free_word = codes "SwapFree:"

-- `percent a b` is `(double)a / b * 100.0`.
module _ {D : Type 0} (k : Real D) (percent : ℕ → ℕ → D) where
  -- The words of the lines of /proc/meminfo that are read with the same `sscanf`.
  pub data Field : Type 0 where
    mem_total mem_available mem_buffers mem_cached mem_swap_total mem_swap_free : Field

  module _ (scan_kb : Field → List ℕ → Option ℕ) where
    -- The first of the five fields that a line gives.
    unfoldable pub read_field : List ℕ → MemInfo D → Option (MemInfo D)
    read_field line mem = elim (scan_kb mem_total line) [
      | some value ↦ some (record mem { total = value })
      | none ↦ elim (scan_kb mem_available line) [
        | some value ↦ some (record mem { available = value })
        | none ↦ elim (scan_kb mem_buffers line) [
          | some value ↦ some (record mem { buffers = value })
          | none ↦ elim (scan_kb mem_cached line) [
            | some value ↦ some (record mem { cached = value })
            | none ↦ elim (scan_kb mem_swap_total line) [
              | some value ↦ some (record mem { swap_total = value })
              | none ↦ none
            ]
          ]
        ]
      ]
    ]

    abbrev pub or_zero : Option ℕ → ℕ
    or_zero none = 0
    or_zero (some value) = value

    -- The loop, which ends at the line of the free swap.
    unfoldable pub read_meminfo : List (List ℕ) → MemInfo D → MemInfo D
    read_meminfo [] mem = mem
    read_meminfo (line ∷ lines) mem = elim (read_field line mem) [
      | some mem' ↦ read_meminfo lines mem'
      | none ↦
          let rest = read_meminfo lines mem in
          if starts_with line swap_free_word
          then record mem {
            swap_used = sub64 mem.swap_total (or_zero (scan_kb mem_swap_free line));
          }
          else rest
    ]

    unfoldable pub get_mem_info : Option (List (List ℕ)) → MemInfo D → MemInfo D
    get_mem_info none mem = mem
    get_mem_info (some lines) mem =
        let m = read_meminfo lines mem in
        let used = sub64 m.total m.available in
        let usage = if ltb 0 m.total then percent used m.total else k.zero in
        let (history, at) = update_history usage (m.history, m.history_pos) in
        record m {
          used = used;
          usage_percent = usage;
          swap_percent = if ltb 0 m.swap_total then percent m.swap_used m.swap_total else k.zero;
          history = history;
          history_pos = at;
        }
