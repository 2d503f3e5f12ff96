-- ===== src/Network/State.antt =====
-- The records that are filled (include/network.h), and what the system answers. A field that is an
-- array of bytes is the text in it; a text that the code copies with `strcpy` is taken to fit.
use hifetch.Common.{ℕ, Bool, ℤ, List, [], Option, Table, if◌then◌else◌}
use hifetch.Strings.Commands.{c_string}
use hifetch.Strings.Secure.{File, read_file_fast}
use hifetch.Sysinfo.Facts.{strtok_lines}

pub record NetworkInterface (D : Type 0) : Type 0 where
  pub name : List ℕ
  pub ip_address : List ℕ
  pub netmask : List ℕ
  pub broadcast : List ℕ
  pub mac_address : List ℕ
  pub is_up : Bool
  pub is_wireless : Bool
  pub wireless_essid : List ℕ
  pub wireless_signal : ℤ
  pub wireless_frequency : D
  pub rx_bytes : ℕ
  pub tx_bytes : ℕ
  pub rx_packets : ℕ
  pub tx_packets : ℕ
  pub rx_errors : ℕ
  pub tx_errors : ℕ
  pub speed_mbps : D
  pub mtu : ℤ
  pub driver : List ℕ

pub record Route : Type 0 where
  pub destination : List ℕ
  pub gateway : List ℕ
  pub netmask : List ℕ
  pub interface : List ℕ
  pub metric : ℤ
  pub is_default : Bool

-- `process` and `pid` are written nowhere.
pub record Connection : Type 0 where
  pub local_addr : List ℕ
  pub local_port : ℕ
  pub remote_addr : List ℕ
  pub remote_port : ℕ
  pub protocol : List ℕ
  pub state : List ℕ
  pub process : List ℕ
  pub pid : ℤ

pub record DnsServer (D : Type 0) : Type 0 where
  pub server : List ℕ
  pub port : ℕ
  pub response_time : D
  pub is_working : Bool

-- `hostname` is written nowhere.
pub record TracerouteHop (D : Type 0) : Type 0 where
  pub hop : ℕ
  pub address : List ℕ
  pub hostname : List ℕ
  pub rtt_ms : List D
  pub status : ℕ

pub record NetworkInfo (D : Type 0) : Type 0 where
  pub interfaces : Table (NetworkInterface D)
  pub routes : Table Route
  pub connections : Table Connection
  pub dns_servers : Table (DnsServer D)
  pub traceroute : Table (TracerouteHop D)
  pub default_gateway : List ℕ
  pub public_ip : List ℕ
  pub public_ipv6 : List ℕ
  pub internet_latency : D
  pub dns_resolution_time : D
  pub isp_info : List ℕ
  pub geolocation : List ℕ

abbrev pub max_interfaces : ℕ
max_interfaces = 32

abbrev pub max_routes : ℕ
max_routes = 256

abbrev pub max_connections : ℕ
max_connections = 1024

abbrev pub max_dns_servers : ℕ
max_dns_servers = 16

abbrev pub max_traceroute_hops : ℕ
max_traceroute_hops = 30

-- An entry of `getifaddrs`: `inet` has the address, the mask and the broadcast address of an entry of
-- the family AF_INET.
pub record IfAddress : Type 0 where
  pub ifa_name : List ℕ
  pub has_addr : Bool
  pub inet : Option (ℕ × Option ℕ × Option ℕ)
  pub up : Bool

-- The fields of a line of /proc/net/route, and of one of /proc/net/tcp.
pub record RouteLine : Type 0 where
  pub iface : List ℕ
  pub dest : ℕ
  pub via : ℕ
  pub metric : ℤ
  pub mask : ℕ

pub record TcpLine : Type 0 where
  pub local_addr : List ℕ
  pub local_port : ℕ
  pub remote_addr : List ℕ
  pub remote_port : ℕ
  pub state : ℕ

-- The C library and the shell: `inet_ntop`, `sscanf` with the three formats, where `none` is a line
-- that does not have all the fields, `getaddrinfo`, and what a command prints.
pub record Network : Type 0 where
  pub inet_ntop : ℕ → List ℕ
  pub scan_route : List ℕ → Option RouteLine
  pub scan_tcp : List ℕ → Option TcpLine
  pub scan_hex : List ℕ → ℕ
  pub getaddrinfo : List ℕ → Option ℕ
  pub execute_cmd : List ℕ → Option (List ℕ)

-- The lines of a file that is read into an array with any content; none where it cannot be read.
unfoldable pub lines_of : File → List ℕ → List (List ℕ)
lines_of file buffer =
    let (read, after) = read_file_fast file buffer in
    if read then strtok_lines (c_string after) else []
