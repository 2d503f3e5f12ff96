-- ===== src/Performance/Tests.antt =====
-- The benchmarks and the network rates at concrete inputs (src/performance.c).
use hifetch.Common.{
  codes, Real, ℕ, ◌+◌, ◌-◌, ◌/◌, ◌≡◌, List, [], ◌∷◌, Option, none, some, ltb, take, drop,
}
use hifetch.Performance.Intervals.{Static, keep_lines, measured}
use hifetch.Performance.Network.{
  InterfaceLine, Traffic, no_traffic, network_counters, network_rates, network_entry, active_line,
  get_network_performance, get_network_performance-measured,
}

abbrev clock : Real ℕ
clock = record {
  zero = 0;
  huge = 1000000000;
  add = λ a b. a + b;
  sub = λ a b. a - b;
  less = λ a b. ltb a b;
}

abbrev interface_line : List ℕ → ℕ → InterfaceLine
interface_line name bytes = record {
  interface = name;
  rx_bytes = bytes;
  rx_packets = 1;
  rx_errs = 0;
  rx_drop = 0;
  tx_bytes = bytes;
  tx_packets = 1;
  tx_errs = 0;
  tx_drop = 0;
}

-- Two titles and two interfaces.
abbrev net_dev : List (Option InterfaceLine)
net_dev =
    none
    ∷ none
    ∷ some (interface_line (codes "lo") 3000)
    ∷ some (interface_line (codes "en") 5000)
    ∷ []

abbrev last_call : Static ℕ Traffic
last_call = record { prev = no_traffic ∷ no_traffic ∷ []; prev_time = 100 }

get_network_performance-measured_example :
    (get_network_performance clock
      (λ n d. n / d)
      (λ line. line)
      (some net_dev)
      (λ i. 200 + i)
      last_call).0
    ≡ measured clock network_counters
        (network_rates clock (λ n d. n / d) (λ line. line))
        network_entry
        no_traffic
        (λ i. 200 + i)
        0
        100
        last_call.prev
        (take 16 (keep_lines (active_line clock (λ n d. n / d) (λ line. line)) (drop 2 net_dev)))
get_network_performance-measured_example =
    get_network_performance-measured clock (λ n d. n / d) (λ line. line) net_dev (λ i. 200 + i)
      last_call
