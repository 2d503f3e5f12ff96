-- ===== src/Performance/Disks.antt =====
-- Disk rates (src/performance.c, `get_io_performance`). The lines of the file are what `strtok` cuts
-- at each end of line; `scan` is `sscanf` on a line, with all fourteen values read.
use hifetch.Common.{
  Real, ℕ, ◌*◌, ◌%◌, ◌^◌, ◌≡◌, ◌||◌, List, [], Option, none, some, if◌then◌else◌, ltb, add64, sub64,
  take,
}
use hifetch.Performance.Intervals.{Static, keep_lines, add_entries, measured, add_entries-measured}

-- The values of a line that the code uses.
pub record DiskLine : Type 0 where
  pub device : List ℕ
  pub reads : ℕ
  pub read_sectors : ℕ
  pub writes : ℕ
  pub write_sectors : ℕ
  pub total_time : ℕ
  pub weighted_time : ℕ

-- An entry of the four static arrays.
pub record Transfers : Type 0 where
  pub prev_reads : ℕ
  pub prev_writes : ℕ
  pub prev_read_sectors : ℕ
  pub prev_write_sectors : ℕ

abbrev pub no_transfers : Transfers
no_transfers = record {
  prev_reads = 0;
  prev_writes = 0;
  prev_read_sectors = 0;
  prev_write_sectors = 0;
}

pub record DiskRates : Type 0 where
  pub reads_per_sec : ℕ
  pub writes_per_sec : ℕ
  pub read_bytes_per_sec : ℕ
  pub write_bytes_per_sec : ℕ

-- `rates` is `none` where the code leaves what the caller's array held.
pub record IoPerformance (D : Type 0) : Type 0 where
  pub device : List ℕ
  pub rates : Option DiskRates
  pub utilization : D
  pub avg_wait_time : D

abbrev pub disk_counters : DiskLine → Transfers
disk_counters l = record {
  prev_reads = l.reads;
  prev_writes = l.writes;
  prev_read_sectors = l.read_sectors;
  prev_write_sectors = l.write_sectors;
}

-- `per_sec n d` is `n / d` as a `size_t`, and `ratio a b` is `a / b` as a `double`.
module _ {D Line : Type 0} (k : Real D) (per_sec : ℕ → D → ℕ) (ratio : ℕ → ℕ → D)
    (scan : Line → Option DiskLine) where
  abbrev pub disk_rates : D → Transfers → Transfers → DiskRates
  disk_rates time_diff old new = record {
    reads_per_sec = per_sec (sub64 new.prev_reads old.prev_reads) time_diff;
    writes_per_sec = per_sec (sub64 new.prev_writes old.prev_writes) time_diff;
    read_bytes_per_sec =
        per_sec (sub64 new.prev_read_sectors old.prev_read_sectors * 512 % 2 ^ 64) time_diff;
    write_bytes_per_sec =
        per_sec (sub64 new.prev_write_sectors old.prev_write_sectors * 512 % 2 ^ 64) time_diff;
  }

  abbrev pub disk_entry : DiskLine → Option DiskRates → IoPerformance D
  disk_entry l rates = record {
    device = l.device;
    rates = rates;
    utilization = if ltb 0 l.total_time then ratio l.total_time 10 else k.zero;
    avg_wait_time =
        if ltb 0 (add64 l.reads l.writes)
        then ratio l.weighted_time (add64 l.reads l.writes)
        else k.zero;
  }

  -- A line of a disk that was used.
  unfoldable pub used_line : Line → Option DiskLine
  used_line line = elim (scan line) [
    | some l ↦ if ltb 0 l.reads || ltb 0 l.writes then some l else none
    | none ↦ none
  ]

  -- `now i` is the reading of the clock for the entry at `i`.
  unfoldable pub get_io_performance :
      Option (List Line)
      → (ℕ → D)
      → Static D Transfers
      → List (IoPerformance D) × Static D Transfers
  get_io_performance none now s = ([], s)
  get_io_performance (some lines) now s =
      add_entries k disk_counters disk_rates disk_entry no_transfers now used_line lines ([], s)

  -- `get_io_performance` answers an entry for each of the first 16 lines of a disk that was used, in
  -- the order of the file. Only the first is measured from the last reading of the call before; each
  -- later one is measured from the reading that the entry before it took in the same call, and
  -- against the counters of the entry that had its index in the call before.
  pub get_io_performance-measured :
      (lines : List Line) (now : ℕ → D) (s : Static D Transfers)
      → (get_io_performance (some lines) now s).0
        ≡ measured k disk_counters disk_rates disk_entry no_transfers now 0 s.prev_time s.prev
            (take 16 (keep_lines used_line lines))
  unfolding get_io_performance
  get_io_performance-measured lines now s =
      add_entries-measured k disk_counters disk_rates disk_entry no_transfers now used_line lines
        s.prev_time s.prev
