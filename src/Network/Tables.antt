-- ===== src/Network/Tables.antt =====
-- Routes and connections (src/network.c, `scan_routing_table`, `scan_active_connections` and the
-- counts of `generate_network_report`).
use hifetch.Common.{
  codes, ℕ, ◌+◌, Bool, true, false, List, [], ◌∷◌, none, some, ◌==◌, if◌then◌else◌, drop, get_or,
  str_eq, visit, used, pos,
}
use hifetch.Network.State.{
  Route, Connection, NetworkInfo, Network, RouteLine, TcpLine, max_routes, max_connections,
  lines_of,
}
use hifetch.Strings.Secure.{File}

unfoldable pub route_of : Network → RouteLine → Route
route_of n fields = record {
  interface = fields.iface;
  destination = n.inet_ntop fields.dest;
  gateway = n.inet_ntop fields.via;
  netmask = n.inet_ntop fields.mask;
  metric = fields.metric;
  is_default = fields.dest == 0;
}

abbrev pub no_route : Route
no_route = record {
  destination = [];
  gateway = [];
  netmask = [];
  interface = [];
  metric = pos 0;
  is_default = false;
}

-- One line, with the default gateway so far.
unfoldable pub visit_route : Network → List ℕ → Route → List ℕ → Route × Bool × List ℕ
visit_route n line slot gateway = elim (n.scan_route line) [
  | none ↦ (slot, false, gateway)
  | some fields ↦
      let route = route_of n fields in
      (route, true, if route.is_default then route.gateway else gateway)
]

module _ {D : Type 0} where
  -- The first line of the file is the heading.
  unfoldable pub scan_routing_table : Network → File → List ℕ → NetworkInfo D → NetworkInfo D
  scan_routing_table n file buffer info =
      let start = record info.routes { count = 0 } in
      let (routes, gateway) =
        visit max_routes no_route (visit_route n) (drop 1 (lines_of file buffer)) start
          info.default_gateway in
      record info { routes = routes; default_gateway = gateway }

-- The cases of the switch.
abbrev pub state_names : List (List ℕ)
state_names =
    codes "UNKNOWN"
    ∷ codes "ESTABLISHED"
    ∷ codes "SYN_SENT"
    ∷ codes "SYN_RECV"
    ∷ codes "FIN_WAIT1"
    ∷ codes "FIN_WAIT2"
    ∷ codes "TIME_WAIT"
    ∷ codes "CLOSE"
    ∷ codes "CLOSE_WAIT"
    ∷ codes "LAST_ACK"
    ∷ codes "LISTEN"
    ∷ codes "CLOSING"
    ∷ []

unfoldable pub state_name : ℕ → List ℕ
state_name state = get_or state_names state (codes "UNKNOWN")

unfoldable pub connection_of : Network → TcpLine → Connection → Connection
connection_of n fields slot = record slot {
  local_addr = n.inet_ntop (n.scan_hex fields.local_addr);
  remote_addr = n.inet_ntop (n.scan_hex fields.remote_addr);
  local_port = fields.local_port;
  remote_port = fields.remote_port;
  protocol = codes "TCP";
  state = state_name fields.state;
}

abbrev pub no_connection : Connection
no_connection = record {
  local_addr = [];
  local_port = 0;
  remote_addr = [];
  remote_port = 0;
  protocol = [];
  state = [];
  process = [];
  pid = pos 0;
}

-- Nothing goes along.
unfoldable pub visit_connection :
    Network → List ℕ → Connection → Unit {0} → Connection × Bool × Unit {0}
visit_connection n line slot s = elim (n.scan_tcp line) [
  | none ↦ (slot, false, tt)
  | some fields ↦ (connection_of n fields slot, true, tt)
]

module _ {D : Type 0} where
  unfoldable pub scan_active_connections : Network → File → List ℕ → NetworkInfo D → NetworkInfo D
  scan_active_connections n file buffer info =
      let start = record info.connections { count = 0 } in
      let (connections, after) =
        visit max_connections no_connection (visit_connection n) (drop 1 (lines_of file buffer))
          start tt in
      record info { connections = connections }

-- The loop over the connections in use that counts those in a state.
unfoldable pub count_state : List ℕ → List Connection → ℕ
count_state name [] = 0
count_state name (conn ∷ conns) = (if str_eq conn.state name then 1 else 0) + count_state name conns

module _ {D : Type 0} where
  -- The two counts of the report.
  unfoldable pub connection_counts : NetworkInfo D → ℕ × ℕ
  connection_counts info =
      let conns = used info.connections in
      (count_state (codes "ESTABLISHED") conns, count_state (codes "LISTEN") conns)
