-- ===== src/Performance/Network.antt =====
-- Network rates (src/performance.c, `get_network_performance`). The lines of the file are what
-- `strtok` cuts at each end of line; `scan` is `sscanf` on a line, with eight values read.
use hifetch.Common.{
  Real, ℕ, ◌≡◌, ◌||◌, List, [], ◌∷◌, Option, none, some, if◌then◌else◌, ltb, ◌==◌, add64, sub64,
  take, drop,
}
use hifetch.Performance.Intervals.{Static, keep_lines, add_entries, measured, add_entries-measured}

-- What `sscanf` reads of a line.
pub record InterfaceLine : Type 0 where
  pub interface : List ℕ
  pub rx_bytes : ℕ
  pub rx_packets : ℕ
  pub rx_errs : ℕ
  pub rx_drop : ℕ
  pub tx_bytes : ℕ
  pub tx_packets : ℕ
  pub tx_errs : ℕ
  pub tx_drop : ℕ

-- An entry of the four static arrays.
pub record Traffic : Type 0 where
  pub prev_rx_bytes : ℕ
  pub prev_tx_bytes : ℕ
  pub prev_rx_packets : ℕ
  pub prev_tx_packets : ℕ

abbrev pub no_traffic : Traffic
no_traffic = record {
  prev_rx_bytes = 0;
  prev_tx_bytes = 0;
  prev_rx_packets = 0;
  prev_tx_packets = 0;
}

-- The four rates of an entry.
pub record NetworkRates : Type 0 where
  pub bytes_recv_per_sec : ℕ
  pub bytes_sent_per_sec : ℕ
  pub packets_recv_per_sec : ℕ
  pub packets_sent_per_sec : ℕ

-- `rates` is `none` where the code leaves what the caller's array held.
pub record NetworkPerformance : Type 0 where
  pub interface : List ℕ
  pub rates : Option NetworkRates
  pub errors_per_sec : ℕ
  pub drops_per_sec : ℕ

-- The text before the first space: `strchr`, and the end of the string written there.
unfoldable pub cut_space : List ℕ → List ℕ
cut_space [] = []
cut_space (c ∷ cs) = let rest = cut_space cs in if c == b' ' then [] else c ∷ rest

abbrev pub network_counters : InterfaceLine → Traffic
network_counters l = record {
  prev_rx_bytes = l.rx_bytes;
  prev_tx_bytes = l.tx_bytes;
  prev_rx_packets = l.rx_packets;
  prev_tx_packets = l.tx_packets;
}

abbrev pub network_entry : InterfaceLine → Option NetworkRates → NetworkPerformance
network_entry l rates = record {
  interface = cut_space l.interface;
  rates = rates;
  errors_per_sec = add64 l.rx_errs l.tx_errs;
  drops_per_sec = add64 l.rx_drop l.tx_drop;
}

-- `per_sec n d` is `n / d` as a `size_t`.
module _ {D Line : Type 0} (k : Real D) (per_sec : ℕ → D → ℕ)
    (scan : Line → Option InterfaceLine) where
  abbrev pub network_rates : D → Traffic → Traffic → NetworkRates
  network_rates time_diff old new = record {
    bytes_recv_per_sec = per_sec (sub64 new.prev_rx_bytes old.prev_rx_bytes) time_diff;
    bytes_sent_per_sec = per_sec (sub64 new.prev_tx_bytes old.prev_tx_bytes) time_diff;
    packets_recv_per_sec = per_sec (sub64 new.prev_rx_packets old.prev_rx_packets) time_diff;
    packets_sent_per_sec = per_sec (sub64 new.prev_tx_packets old.prev_tx_packets) time_diff;
  }

  -- A line with traffic.
  unfoldable pub active_line : Line → Option InterfaceLine
  active_line line = elim (scan line) [
    | some l ↦ if ltb 0 l.rx_bytes || ltb 0 l.tx_bytes then some l else none
    | none ↦ none
  ]

  -- The first two lines are titles. `now i` is the reading of the clock for the entry at `i`.
  unfoldable pub get_network_performance :
      Option (List Line) → (ℕ → D) → Static D Traffic → List NetworkPerformance × Static D Traffic
  get_network_performance none now s = ([], s)
  get_network_performance (some lines) now s =
      add_entries k network_counters network_rates network_entry no_traffic now active_line
        (drop 2 lines) ([], s)

  -- `get_network_performance` answers an entry for each of the first 16 lines with traffic, in the
  -- order of the file. Only the first is measured from the last reading of the call before; each later
  -- one is measured from the reading that the entry before it took in the same call, and against the
  -- counters of the entry that had its index in the call before.
  pub get_network_performance-measured :
      (lines : List Line) (now : ℕ → D) (s : Static D Traffic)
      → (get_network_performance (some lines) now s).0
        ≡ measured k network_counters network_rates network_entry no_traffic now 0 s.prev_time
            s.prev
            (take 16 (keep_lines active_line (drop 2 lines)))
  unfolding get_network_performance
  get_network_performance-measured lines now s =
      add_entries-measured k network_counters network_rates network_entry no_traffic now active_line
        (drop 2 lines) s.prev_time s.prev
