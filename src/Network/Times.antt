-- ===== src/Network/Times.antt =====
-- The numbers and the times of the hops (src/network.c, `run_traceroute`).
use hifetch.Common.{
  codes, ℕ, zero, suc, ◌+◌, ◌<◌, ◌≡◌, refl, ap, subst⁻¹, strstr, starts_with, ◌∙◌, inl, inr, Bool,
  true, false, List, [], ◌∷◌, ◌++◌, some, Real, Bool-cases, if◌then◌else◌, length, length-take,
  arith, get_or, Table, used, write, take_next, take-set, IsWithin, visit-keeps, visit-IsWithin,
}
use hifetch.Network.Hops.{
  positive, times_of, trace_tokens, visit_hop, tokens, no_hop, run_traceroute,
}
use hifetch.Network.Probes.{minus_one}
use hifetch.Network.State.{TracerouteHop, NetworkInfo}
use hifetch.Strings.{has}
use hifetch.Sysinfo.State.{Formats}

-- Numbered from `first` on, without a gap, and answered.
abbrev pub IsNumbered : {D : Type 0} → ℕ → List (TracerouteHop D) → Type 0
IsNumbered first [] = Unit {0}
IsNumbered first (h ∷ hops) =
    (h.hop ≡ first) × (h.status ≡ 1) × (length h.rtt_ms ≡ 3) × IsNumbered (suc first) hops

module _ {D : Type 0} (k : Real D) (f : Formats D) where
  IsNumbered-append :
      (first : ℕ) (hops : List (TracerouteHop D)) (h : TracerouteHop D)
      → IsNumbered first hops
      → h.hop ≡ first + length hops
      → h.status ≡ 1
      → length h.rtt_ms ≡ 3
      → IsNumbered first (hops ++ h ∷ [])
  IsNumbered-append first [] h numbered number status three =
      (omega (arith, number), status, three, tt)
  IsNumbered-append first (g ∷ hops) h (n, s, t, numbered) number status three =
      (n, s, t, IsNumbered-append (suc first) hops h numbered (omega (arith, number)) status three)

  times_of-length : (i : ℕ) (rest : List (List ℕ)) → length (times_of k f i rest) ≡ i
  unfolding times_of
  times_of-length zero rest = refl
  times_of-length (suc i) [] = ap suc (times_of-length i [])
  times_of-length (suc i) (token ∷ rest) = ap suc (times_of-length i rest)

  -- The hop number is the number of slots in use, which are numbered from 1.
  Counted : Table (TracerouteHop D) → ℕ → Type 0
  Counted table hop = (hop ≡ table.count) × IsNumbered 1 (used table)

  -- What an entry leaves: the same slots in use, or one more that is the next hop.
  record IsNext (hop : ℕ) (r : TracerouteHop D × Bool × ℕ) : Type 0 where
    numbered : r.1 ≡ true → (r.0.hop ≡ hop + 1) × (r.0.status ≡ 1) × (length r.0.rtt_ms ≡ 3)
    goes : r.2 ≡ (if r.1 then hop + 1 else hop)

  trace_tokens-IsNext :
      (pieces : List (List ℕ)) (slot : TracerouteHop D) (hop : ℕ)
      → IsNext hop (trace_tokens k f pieces slot hop)
  unfolding trace_tokens
  trace_tokens-IsNext [] slot hop = record {
    numbered = λ e. absurd (ground (arith, e));
    goes = refl;
  }
  trace_tokens-IsNext (number ∷ []) slot hop = record {
    numbered = λ e. absurd (ground (arith, e));
    goes = refl;
  }
  trace_tokens-IsNext (number ∷ address ∷ rest) slot hop =
      elim (Bool-cases (positive (f.atoi number))) [
        | inl good ↦
            rw (good, trace_tokens)
              (record { numbered = λ e. (refl, refl, times_of-length 3 rest); goes = refl })
        | inr bad ↦
            rw (bad, trace_tokens)
              (record { numbered = λ e. absurd (ground (arith, e)); goes = refl })
      ]

  visit_hop-IsNext :
      (line : List ℕ) (slot : TracerouteHop D) (hop : ℕ) → IsNext hop (visit_hop k f line slot hop)
  unfolding visit_hop
  visit_hop-IsNext line slot hop = elim (Bool-cases (has line (codes "traceroute to"))) [
    | inl heading ↦
        rw (heading, visit_hop) (record { numbered = λ e. absurd (ground (arith, e)); goes = refl })
    | inr other ↦ rw (other, visit_hop) (trace_tokens-IsNext (tokens line) slot hop)
  ]

  written-Counted :
      (table : Table (TracerouteHop D)) (hop : ℕ) (r : TracerouteHop D × Bool × ℕ)
      → table.count < 30
      → IsWithin 30 table
      → Counted table hop
      → IsNext hop r
      → Counted (write r.1 r.0 table) r.2
  unfolding Counted
  written-Counted table hop (h, true, hop') free within (counts, so_far) next =
      let (number, status, three) = next.numbered refl in
      (
        omega (arith, next.goes, counts),
        subst⁻¹ (IsNumbered 1)
            (take_next table.slots table.count h (omega (arith, free, within.room)))
            (IsNumbered-append 1 (used table) h so_far
              (omega (
                arith,
                number,
                counts,
                within.few,
                within.room,
                length-take table.count table.slots,
              ))
              status three),
      )
  written-Counted table hop (h, false, hop') free within (counts, so_far) next =
      (next.goes ∙ counts, subst⁻¹ (IsNumbered 1) (take-set table.slots table.count h) so_far)

  -- The hops that are listed are at most 30 and numbered 1, 2, 3 and so on without a gap, whatever
  -- numbers `traceroute` prints, and each has three times.
  pub run_traceroute-IsNumbered :
      (lines : List (List ℕ)) (info : NetworkInfo D)
      → length info.traceroute.slots ≡ 30
      → let after = run_traceroute k f (some lines) info in
        IsNumbered 1 (used after.traceroute) × IsWithin 30 after.traceroute
  unfolding run_traceroute Counted
  run_traceroute-IsNumbered lines info room =
      let start : IsWithin 30 (record info.traceroute { count = 0 }) = record {
        room = room;
        few = omega arith;
      } in
      let table = record info.traceroute { count = 0 } in
      (
        (visit-keeps 30 (no_hop k f) (visit_hop k f) Counted
            (λ line t hop free within counted.
              written-Counted t hop (visit_hop k f line (get_or t.slots t.count (no_hop k f)) hop)
                free within counted
                (visit_hop-IsNext line (get_or t.slots t.count (no_hop k f)) hop))
            lines table 0 start (refl, tt)).1,
        visit-IsWithin 30 (no_hop k f) (visit_hop k f) lines table 0 start,
      )

  -- A line with a number, an address, a time, "ms" and a second time as its tokens gives a hop that
  -- has none of its times: -1, what `atof` makes of "ms", and -1.
  pub visit_hop-times :
      (line : List ℕ) (slot : TracerouteHop D) (hop : ℕ) (number address first second : List ℕ)
      (rest : List (List ℕ))
      → has line (codes "traceroute to") ≡ false
      → tokens line ≡ number ∷ address ∷ first ∷ codes "ms" ∷ second ∷ rest
      → positive (f.atoi number) ≡ true
      → has first (codes "ms") ≡ false
      → has second (codes "ms") ≡ false
      → let r = visit_hop k f line slot hop in
        (r.1 ≡ true) × (r.0.rtt_ms ≡ minus_one k f ∷ f.atof (codes "ms") ∷ minus_one k f ∷ [])
  unfolding visit_hop trace_tokens times_of strstr starts_with
  visit_hop-times line slot hop number address first second rest plain pieces good no_ms no_ms' =
      rw (plain, visit_hop, pieces, good, trace_tokens, no_ms, no_ms') (refl, refl)
