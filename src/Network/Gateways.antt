-- ===== src/Network/Gateways.antt =====
-- The default gateway (src/network.c, `scan_routing_table`).
use hifetch.Common.{
  ℕ, ◌<◌, ◌≡◌, refl, inl, inr, List, [], ◌∷◌, ◌++◌, Option-cases, if◌then◌else◌, length, drop,
  arith, get_or, Table, used, write, take_next, take-set, IsWithin, visit-keeps, visit-IsWithin,
}
use hifetch.Network.State.{Route, NetworkInfo, Network, lines_of}
use hifetch.Network.Tables.{route_of, no_route, visit_route, scan_routing_table}
use hifetch.Strings.Secure.{File}

-- The gateway of the last default route of a list, if there is one.
abbrev pub last_default : List ℕ → List Route → List ℕ
last_default old [] = old
last_default old (route ∷ routes) =
    last_default (if route.is_default then route.gateway else old) routes

last_default-append :
    (old : List ℕ) (routes : List Route) (route : Route)
    → last_default old (routes ++ route ∷ [])
      ≡ (if route.is_default then route.gateway else last_default old routes)
last_default-append old [] route = refl
last_default-append old (r ∷ routes) route =
    last_default-append (if r.is_default then r.gateway else old) routes route

visit_route-last :
    (n : Network) (old line : List ℕ) (table : Table Route) (gateway : List ℕ)
    → table.count < 256
    → IsWithin 256 table
    → gateway ≡ last_default old (used table)
    → let r = visit_route n line (get_or table.slots table.count no_route) gateway in
      r.2 ≡ last_default old (used (write r.1 r.0 table))
unfolding visit_route
visit_route-last n old line table gateway free within so_far =
    elim (Option-cases (n.scan_route line)) [
      | inl e ↦
          let slot = get_or table.slots table.count no_route in
          rw (e, visit_route, take-set table.slots table.count slot) so_far
      | inr (fields, e) ↦
          let route = route_of n fields in
          rw
            (
              e,
              visit_route,
              take_next table.slots table.count route (omega (arith, free, within.room)),
              last_default-append old (used table) route,
              so_far,
            )
            refl
    ]

module _ {D : Type 0} where
  -- The default gateway after a scan is that of the last default route in the list of routes, or the
  -- one before the scan if no route is a default route, and the list has at most 256 routes.
  pub scan_routing_table-last :
      (n : Network) (file : File) (buffer : List ℕ) (info : NetworkInfo D)
      → length info.routes.slots ≡ 256
      → let after = scan_routing_table n file buffer info in
        (after.default_gateway ≡ last_default info.default_gateway (used after.routes))
        × IsWithin 256 after.routes
  unfolding scan_routing_table
  scan_routing_table-last n file buffer info room =
      let start : IsWithin 256 (record info.routes { count = 0 }) = record {
        room = room;
        few = omega arith;
      } in
      let old = info.default_gateway in
      let lines = drop 1 (lines_of file buffer) in
      let Last : Table Route → List ℕ → Type 0 =
        λ table gateway. gateway ≡ last_default old (used table) in
      (
        visit-keeps 256 no_route (visit_route n) Last
            (λ line table gateway free within so_far.
              visit_route-last n old line table gateway free within so_far)
            lines (record info.routes { count = 0 }) old start refl,
        visit-IsWithin 256 no_route (visit_route n) lines (record info.routes { count = 0 }) old
            start,
      )
