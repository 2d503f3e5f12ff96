-- ===== src/Network/Hops.antt =====
-- The hops of a route (src/network.c, `run_traceroute`).
use hifetch.Common.{
  codes, ℕ, zero, suc, ◌+◌, Bool, true, false, ℤ, pos, negsuc, List, [], ◌∷◌, Option, none, some,
  Real, ◌==◌, ◌||◌, if◌then◌else◌, ltb, visit,
}
use hifetch.Network.Probes.{minus_one}
use hifetch.Network.State.{TracerouteHop, NetworkInfo, max_traceroute_hops}
use hifetch.Strings.{has}
use hifetch.Sysinfo.Facts.{drop_empty}
use hifetch.Sysinfo.State.{Formats}

-- The pieces between spaces and tabs.
unfoldable pub split_blanks : List ℕ → List ℕ × List (List ℕ)
split_blanks [] = ([], [])
split_blanks (c ∷ text) =
    let (piece, pieces) = split_blanks text in
    if c == b' ' || c == 9 then ([], piece ∷ pieces) else (c ∷ piece, pieces)

-- The pieces that `strtok` gives.
unfoldable pub tokens : List ℕ → List (List ℕ)
tokens line = let (piece, pieces) = split_blanks line in drop_empty (piece ∷ pieces)

abbrev pub positive : ℤ → Bool
positive (pos n) = ltb 0 n
positive (negsuc n) = false

module _ {D : Type 0} (k : Real D) (f : Formats D) where
  -- The loop over the three times; a token that is missing counts as one without "ms".
  unfoldable pub times_of : ℕ → List (List ℕ) → List D
  times_of zero rest = []
  times_of (suc i) [] = minus_one k f ∷ times_of i []
  times_of (suc i) (token ∷ rest) =
      (if has token (codes "ms") then f.atof token else minus_one k f) ∷ times_of i rest

  -- The hop with its address and times, of the tokens of a line.
  unfoldable pub trace_tokens : List (List ℕ) → TracerouteHop D → ℕ → TracerouteHop D × Bool × ℕ
  trace_tokens [] slot hop = (record slot { hop = hop + 1 }, false, hop)
  trace_tokens (number ∷ []) slot hop = (record slot { hop = hop + 1 }, false, hop)
  trace_tokens (number ∷ address ∷ rest) slot hop =
      if positive (f.atoi number)
      then (
        record slot { hop = hop + 1; address = address; rtt_ms = times_of 3 rest; status = 1 },
        true,
        hop + 1,
      )
      else (record slot { hop = hop + 1 }, false, hop)

  -- One line, with the number of hops so far.
  unfoldable pub visit_hop : List ℕ → TracerouteHop D → ℕ → TracerouteHop D × Bool × ℕ
  visit_hop line slot hop =
      if has line (codes "traceroute to")
      then (slot, false, hop)
      else trace_tokens (tokens line) slot hop

  abbrev pub no_hop : TracerouteHop D
  no_hop = record {
    hop = 0;
    address = [];
    hostname = [];
    rtt_ms = f.of_ℕ 0 ∷ f.of_ℕ 0 ∷ f.of_ℕ 0 ∷ [];
    status = 0;
  }

  -- The lines that `fgets` gives, of at most 511 bytes each; `none` is an error of `popen`.
  unfoldable pub run_traceroute : Option (List (List ℕ)) → NetworkInfo D → NetworkInfo D
  run_traceroute none info = record info { traceroute = record info.traceroute { count = 0 } }
  run_traceroute (some lines) info =
      let start = record info.traceroute { count = 0 } in
      let (hops, hop) = visit max_traceroute_hops no_hop visit_hop lines start 0 in
      record info { traceroute = hops }
