-- ===== src/Network/States.antt =====
-- The connections that the report counts (src/network.c, `scan_active_connections` and
-- `generate_network_report`).
use hifetch.Common.{
  codes, ℕ, zero, suc, ◌+◌, ◌≡◌, refl, ap, ◌∙◌, inl, inr, List, [], ◌∷◌, Option, none, some,
  Option-cases, map, ◌==◌, if◌then◌else◌, length, take, drop, str_eq, arith, used, IsWithin,
  visit-collect, collect-pick, pick,
}
use hifetch.Network.State.{Connection, NetworkInfo, Network, TcpLine, lines_of}
use hifetch.Network.Tables.{
  state_name, connection_of, no_connection, visit_connection, scan_active_connections, count_state,
  connection_counts,
}
use hifetch.Strings.Secure.{File}

-- The number of the state in a line.
abbrev state_field : Option TcpLine → Option ℕ
state_field none = none
state_field (some fields) = some fields.state

abbrev pub scanned_state : Network → List ℕ → Option ℕ
scanned_state n line = state_field (n.scan_tcp line)

abbrev pub occurrences : ℕ → List ℕ → ℕ
occurrences state [] = 0
occurrences state (s ∷ states) = (if s == state then 1 else 0) + occurrences state states

-- The name of a state is "ESTABLISHED" for number 1 alone, and "LISTEN" for number 10 alone.
state_name-established : (s : ℕ) → str_eq (state_name s) (codes "ESTABLISHED") ≡ (s == 1)
unfolding state_name str_eq
state_name-established zero = refl
state_name-established (suc zero) = refl
state_name-established (suc (suc zero)) = refl
state_name-established (suc (suc (suc zero))) = refl
state_name-established (suc (suc (suc (suc zero)))) = refl
state_name-established (suc (suc (suc (suc (suc zero))))) = refl
state_name-established (suc (suc (suc (suc (suc (suc zero)))))) = refl
state_name-established (suc (suc (suc (suc (suc (suc (suc zero))))))) = refl
state_name-established (suc (suc (suc (suc (suc (suc (suc (suc zero)))))))) = refl
state_name-established (suc (suc (suc (suc (suc (suc (suc (suc (suc zero))))))))) = refl
state_name-established (suc (suc (suc (suc (suc (suc (suc (suc (suc (suc zero)))))))))) = refl
state_name-established (suc (suc (suc (suc (suc (suc (suc (suc (suc (suc (suc zero))))))))))) = refl
state_name-established (suc (suc (suc (suc (suc (suc (suc (suc (suc (suc (suc (suc s)))))))))))) =
    ground arith

state_name-listen : (s : ℕ) → str_eq (state_name s) (codes "LISTEN") ≡ (s == 10)
unfolding state_name str_eq
state_name-listen zero = refl
state_name-listen (suc zero) = refl
state_name-listen (suc (suc zero)) = refl
state_name-listen (suc (suc (suc zero))) = refl
state_name-listen (suc (suc (suc (suc zero)))) = refl
state_name-listen (suc (suc (suc (suc (suc zero))))) = refl
state_name-listen (suc (suc (suc (suc (suc (suc zero)))))) = refl
state_name-listen (suc (suc (suc (suc (suc (suc (suc zero))))))) = refl
state_name-listen (suc (suc (suc (suc (suc (suc (suc (suc zero)))))))) = refl
state_name-listen (suc (suc (suc (suc (suc (suc (suc (suc (suc zero))))))))) = refl
state_name-listen (suc (suc (suc (suc (suc (suc (suc (suc (suc (suc zero)))))))))) = refl
state_name-listen (suc (suc (suc (suc (suc (suc (suc (suc (suc (suc (suc zero))))))))))) = refl
state_name-listen (suc (suc (suc (suc (suc (suc (suc (suc (suc (suc (suc (suc s)))))))))))) =
    ground arith

abbrev count_names : List ℕ → List (List ℕ) → ℕ
count_names name [] = 0
count_names name (text ∷ texts) = (if str_eq text name then 1 else 0) + count_names name texts

count_state-map :
    (name : List ℕ) (conns : List Connection)
    → count_state name conns ≡ count_names name (map (λ (c : Connection). c.state) conns)
unfolding count_state
count_state-map name [] = refl
count_state-map name (conn ∷ conns) =
    ap (λ k. (if str_eq conn.state name then 1 else 0) + k) (count_state-map name conns)

count_names-occurrences :
    (name : List ℕ) (state : ℕ)
    → ((s : ℕ) → str_eq (state_name s) name ≡ (s == state))
    → (states : List ℕ) → count_names name (map state_name states) ≡ occurrences state states
count_names-occurrences name state same [] = refl
count_names-occurrences name state same (s ∷ states) =
    rw (same s)
      (ap (λ k. (if s == state then 1 else 0) + k) (count_names-occurrences name state same states))

abbrev name_some : Option ℕ → Option (List ℕ)
name_some none = none
name_some (some s) = some (state_name s)

pick-names :
    (wanted : List ℕ → Option ℕ) (lines : List (List ℕ))
    → pick (λ line. name_some (wanted line)) lines ≡ map state_name (pick wanted lines)
pick-names wanted [] = refl
pick-names wanted (line ∷ lines) = elim (Option-cases (wanted line)) [
  | inl e ↦ rw e (pick-names wanted lines)
  | inr (s, e) ↦ rw e (ap (λ r. state_name s ∷ r) (pick-names wanted lines))
]

take-map : {A C : Type 0} (g : A → C) (n : ℕ) (xs : List A) → take n (map g xs) ≡ map g (take n xs)
take-map g zero xs = refl
take-map g (suc n) [] = refl
take-map g (suc n) (x ∷ xs) = ap (λ r. g x ∷ r) (take-map g n xs)

visit_connection-state :
    (n : Network) (line : List ℕ) (slot : Connection) (s : Unit {0})
    → let r = visit_connection n line slot s in
      ((if r.1 then some r.0.state else none) ≡ name_some (scanned_state n line)) × (r.2 ≡ s)
unfolding visit_connection connection_of
visit_connection-state n line slot s = elim (Option-cases (n.scan_tcp line)) [
  | inl e ↦ rw (e, visit_connection) (refl, refl)
  | inr (fields, e) ↦ rw (e, visit_connection) (refl, refl)
]

module _ {D : Type 0} where
  scan_active_connections-names :
      (n : Network) (file : File) (buffer : List ℕ) (info : NetworkInfo D)
      → length info.connections.slots ≡ 1024
      → map
          (λ (c : Connection). c.state)
          (used (scan_active_connections n file buffer info).connections)
        ≡ map state_name (take 1024 (pick (scanned_state n) (drop 1 (lines_of file buffer))))
  unfolding scan_active_connections
  scan_active_connections-names n file buffer info room =
      let start : IsWithin 1024 (record info.connections { count = 0 }) = record {
        room = room;
        few = omega arith;
      } in
      let lines = drop 1 (lines_of file buffer) in
      let wanted : List ℕ → Option (List ℕ) = λ line. name_some (scanned_state n line) in
      visit-collect 1024 no_connection (visit_connection n) (λ (c : Connection). c.state)
        (λ line s. wanted line) (λ line s. s) (visit_connection-state n) lines
        (record info.connections { count = 0 }) tt start
      ∙ ap (take 1024) (collect-pick wanted (λ line s. s) lines tt)
      ∙ ap (take 1024) (pick-names (scanned_state n) lines)
      ∙ take-map state_name 1024 (pick (scanned_state n) lines)

  -- After a scan the report counts as established the connections whose line has state 1, and as
  -- listening those with state 10, among the first 1024 lines after the heading that have all the
  -- fields.
  pub connection_counts-scan_active_connections :
      (n : Network) (file : File) (buffer : List ℕ) (info : NetworkInfo D)
      → length info.connections.slots ≡ 1024
      → let states = take 1024 (pick (scanned_state n) (drop 1 (lines_of file buffer))) in
        connection_counts (scan_active_connections n file buffer info)
        ≡ (occurrences 1 states, occurrences 10 states)
  unfolding connection_counts
  connection_counts-scan_active_connections n file buffer info room =
      let states = take 1024 (pick (scanned_state n) (drop 1 (lines_of file buffer))) in
      let conns = used (scan_active_connections n file buffer info).connections in
      let names = scan_active_connections-names n file buffer info room in
      let established =
        count_state-map (codes "ESTABLISHED") conns
        ∙ ap (count_names (codes "ESTABLISHED")) names
        ∙ count_names-occurrences (codes "ESTABLISHED") 1 state_name-established states in
      let listening =
        count_state-map (codes "LISTEN") conns
        ∙ ap (count_names (codes "LISTEN")) names
        ∙ count_names-occurrences (codes "LISTEN") 10 state_name-listen states in
      rw (established, listening) refl
