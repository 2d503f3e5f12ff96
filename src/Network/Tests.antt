-- ===== src/Network/Tests.antt =====
-- The network of a small machine (src/network.c), with whole numbers for times.
use hifetch.Common.{
  codes, ℕ, ◌≡◌, refl, true, pos, List, [], ◌∷◌, none, some, Table, used, length, map, take, drop,
  replicate, strstr, starts_with, pick, IsWithin,
}
use hifetch.Hardware.Sysfs.{Sysfs}
use hifetch.Network.Hops.{no_hop, run_traceroute}
use hifetch.Network.Interfaces.{no_interface, get_wireless_info, scan_network_interfaces}
use hifetch.Network.Listed.{listed_name, scan_network_interfaces-listed}
use hifetch.Network.Probes.{no_server}
use hifetch.Network.State.{NetworkInterface, NetworkInfo, IfAddress, Network, lines_of}
use hifetch.Network.States.{scanned_state, occurrences, connection_counts-scan_active_connections}
use hifetch.Network.Tables.{no_route, no_connection, scan_active_connections, connection_counts}
use hifetch.Network.Times.{IsNumbered, run_traceroute-IsNumbered}
use hifetch.Network.Wireless.{get_wireless_info-keeps}
use hifetch.Strings.Secure.{closed, bytes}
use hifetch.Sysinfo.Facts.{after_first}
use hifetch.Sysinfo.Tests.{clock, formats}

abbrev radio_output : List ℕ
radio_output = codes "wl ESSID:\"home\" Frequency:2 Signal level=-40"

-- A line of a connection is its state; a line of a route is its gateway.
abbrev network : Network
network = record {
  inet_ntop = λ address. address ∷ [];
  scan_route = λ line.
      some (record { iface = codes "e"; dest = 0; via = length line; metric = pos 0; mask = 0 });
  scan_tcp = λ line. some (record {
    local_addr = [];
    local_port = 1;
    remote_addr = [];
    remote_port = 2;
    state = length line;
  });
  scan_hex = λ text. length text;
  getaddrinfo = λ name. none;
  execute_cmd = λ cmd. some radio_output;
}

-- Every interface is wireless.
abbrev system : Sysfs
system = record {
  files = λ place. closed;
  readlink = λ place. none;
  stat = λ place. true;
  glob = λ pattern. none;
  opendir = λ place. none;
}

abbrev table : {A : Type 0} → ℕ → A → Table A
table n a = record { slots = replicate n a; count = 0 }

abbrev zeros : NetworkInfo ℕ
zeros = record {
  interfaces = table 32 (no_interface formats);
  routes = table 256 no_route;
  connections = table 1024 no_connection;
  dns_servers = table 16 (no_server clock formats);
  traceroute = table 30 (no_hop clock formats);
  default_gateway = [];
  public_ip = [];
  public_ipv6 = [];
  internet_latency = 0;
  dns_resolution_time = 0;
  isp_info = [];
  geolocation = [];
}

abbrev loopback : IfAddress
loopback = record { ifa_name = codes "lo"; has_addr = true; inet = none; up = true }

abbrev cable : IfAddress
cable = record { ifa_name = codes "eth0"; has_addr = true; inet = some (7, none, none); up = true }

scan_network_interfaces-listed_example :
    map
      (λ (i : NetworkInterface ℕ). i.name)
      (used
        (scan_network_interfaces formats system network
          (some (loopback ∷ cable ∷ cable ∷ []))
          zeros
          []).0.interfaces)
    ≡ take 32 (pick listed_name (loopback ∷ cable ∷ cable ∷ []))
scan_network_interfaces-listed_example =
    scan_network_interfaces-listed formats system network (loopback ∷ cable ∷ cable ∷ []) zeros []
      refl

get_wireless_info-keeps_example :
    let read = get_wireless_info formats system network (no_interface formats) in
    (read.wireless_essid ≡ codes "home")
    × (read.wireless_signal ≡ pos 0)
    × (read.wireless_frequency ≡ 0)
unfolding strstr starts_with after_first
get_wireless_info-keeps_example =
    get_wireless_info-keeps formats system network (no_interface formats) radio_output
      (codes "home") (codes " Frequency:2 Signal level=-40") refl refl refl refl refl refl

connection_counts-scan_active_connections_example :
    let states = take 1024 (
      pick
        (scanned_state network)
        (drop 1 (lines_of (bytes (codes "head\nx\n")) (replicate 64 0)))) in
    connection_counts
      (scan_active_connections network (bytes (codes "head\nx\n")) (replicate 64 0) zeros)
    ≡ (occurrences 1 states, occurrences 10 states)
connection_counts-scan_active_connections_example =
    connection_counts-scan_active_connections network (bytes (codes "head\nx\n")) (replicate 64 0)
      zeros refl

run_traceroute-IsNumbered_example :
    let after = run_traceroute clock formats (some (codes "1 a 5 ms 6 ms\n" ∷ [])) zeros in
    IsNumbered 1 (used after.traceroute) × IsWithin 30 after.traceroute
run_traceroute-IsNumbered_example =
    run_traceroute-IsNumbered clock formats (codes "1 a 5 ms 6 ms\n" ∷ []) zeros refl
