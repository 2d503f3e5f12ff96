-- ===== src/Hitop/History.antt =====
-- What the graph shows of the values that were measured (src/hitop.c, `update_history` and
-- `draw_cpu_graph`).
use hifetch.Common.{
  Real, ℕ, zero, suc, ◌+◌, ◌-◌, ◌%◌, ◌≤◌, ◌<◌, ◌≡◌, ◌≢◌, refl, sym, ap, subst, subst₂, ◌∙◌, true,
  ◌&&◌, List, [], ◌∷◌, ◌++◌, arith, ltb, leb, length, get_or, set, replicate, length-set,
  length-append, get_or-set_self, get_or-set_ne,
}
use hifetch.Hitop.Meters.{update_history, column_value, drawn_by, draw_cpu_graph}
use mathlib.Core.List.{append-nil, append_assoc}
use native.Mathlib.Decide.{dec_lt}

module _ {D : Type 0} where
  -- One measurement after the other.
  unfoldable pub record_all : List D → List D × ℕ → List D × ℕ
  record_all [] ring = ring
  record_all (v ∷ vs) ring = record_all vs (update_history v ring)

  get_or-append_left :
      (xs ys : List D) (i : ℕ) (d : D) → i < length xs → get_or (xs ++ ys) i d ≡ get_or xs i d
  get_or-append_left [] ys i d h = absurd (omega arith)
  get_or-append_left (x ∷ xs) ys zero d h = refl
  get_or-append_left (x ∷ xs) ys (suc i) d h = get_or-append_left xs ys i d (omega arith)

  get_or-append_last : (xs : List D) (x d : D) → get_or (xs ++ x ∷ []) (length xs) d ≡ x
  get_or-append_last [] x d = refl
  get_or-append_last (y ∷ xs) x d = get_or-append_last xs x d

  -- The ring holds the last 60 entries of the log, the oldest of them at `at`.
  record Holds (d : D) (log history : List D) (n at : ℕ) : Type 0 where
    width : length history ≡ 60
    log_length : length log ≡ n + 60
    inside : at < 60
    same : (i : ℕ) → i < 60 → get_or history ((at + i) % 60) d ≡ get_or log (n + i) d

  update-Holds :
      (d : D) (log history : List D) (n at : ℕ) (v : D)
      → Holds d log history n at
      → Holds d (log ++ v ∷ []) (set history at v) (suc n) ((at + 1) % 60)
  update-Holds d log history n at v h = record {
    width = length-set history at v ∙ h.width;
    log_length = omega (arith, length-append log (v ∷ []), h.log_length);
    inside = omega arith;
    same = λ i low. elim (dec_lt i 59) [
      | yes earlier ↦
          let next : ((at + 1) % 60 + i) % 60 ≡ (at + suc i) % 60 = omega (arith, h.inside) in
          let apart : at ≢ (at + suc i) % 60 = λ e. ground (arith, e, h.inside, low, earlier) in
          let before : suc n + i < length log = omega (arith, h.log_length, low, earlier) in
          let shift : suc n + i ≡ n + suc i = omega arith in
          rw next (
            get_or-set_ne history at ((at + suc i) % 60) v d apart
            ∙ h.same (suc i) (omega (arith, low, earlier))
            ∙ ap (λ m. get_or log m d) (sym shift)
            ∙ sym (get_or-append_left log (v ∷ []) (suc n + i) d before))
      | no last_one ↦
          let last : i ≡ 59 = omega (arith, low, last_one) in
          let here : ((at + 1) % 60 + i) % 60 ≡ at = omega (arith, h.inside, last) in
          let end : suc n + i ≡ length log = omega (arith, h.log_length, last) in
          rw (here, end)
            (get_or-set_self history at v d (omega (arith, h.inside, h.width))
              ∙ sym (get_or-append_last log v d))
    ];
  }

module _ {D : Type 0} (k : Real D) (bar_height : D → ℕ) where
  Keeps : List D → List D × ℕ → ℕ → Type 0
  Keeps log ring n = Holds k.zero log ring.0 n ring.1

  record_all-Keeps :
      (vs log : List D) (ring : List D × ℕ) (n : ℕ)
      → Keeps log ring n
      → Keeps (log ++ vs) (record_all vs ring) (n + length vs)
  unfolding record_all update_history Keeps
  record_all-Keeps [] log ring n h =
      let same_count : n ≡ n + 0 = omega arith in
      subst₂ (λ l m. Holds k.zero l ring.0 m ring.1) (sym (append-nil log)) same_count h
  record_all-Keeps (v ∷ vs) log (history, at) n h =
      let ih =
        record_all-Keeps vs (log ++ v ∷ []) (update_history v (history, at)) (suc n)
          (update-Holds k.zero log history n at v h) in
      let count : suc n + length vs ≡ n + suc (length vs) = omega arith in
      subst (λ m. Keeps (log ++ v ∷ vs) (record_all vs (update_history v (history, at))) m) count
        (subst (λ l. Keeps l (record_all vs (update_history v (history, at))) (suc n + length vs))
          (append_assoc log (v ∷ []) vs) ih)

  -- The ring of a program that has just started.
  abbrev pub empty_ring : List D × ℕ
  empty_ring = (replicate 60 k.zero, 0)

  empty-Keeps : Keeps (replicate 60 k.zero) empty_ring 0
  unfolding Keeps
  empty-Keeps = record {
    width = refl;
    log_length = refl;
    inside = omega arith;
    same = λ i low.
        let near : (0 + i) % 60 ≡ 0 + i = omega (arith, low) in
        ap (λ m. get_or (replicate 60 k.zero) m k.zero) near;
  }

  drawn_by_lem :
      (n bar r : ℕ)
      → n ≤ 8
      → 1 ≤ r
      → r ≤ 8
      → drawn_by k bar_height n bar r ≡ (ltb (8 - r) n && leb r bar)
  unfolding drawn_by
  drawn_by_lem zero bar r h low high = ground arith
  drawn_by_lem (suc n) bar r h low high =
      rw (drawn_by_lem n bar r (omega arith) low high) (ground (arith, h, low, high))

  -- After any measurements, a column of the graph is one of the last fifty of them, the newest in the
  -- last column, with zeros where there are fewer: it has a block `r` rows below the border just when
  -- the bar of that value is at least `r` high, so bars hang from the top of the graph.
  pub draw_cpu_graph-record_all :
      (vs : List D) (j r : ℕ)
      → j < 50
      → 1 ≤ r
      → r ≤ 8
      → draw_cpu_graph k bar_height (record_all vs empty_ring) j r
        ≡ leb r (bar_height (get_or (replicate 60 k.zero ++ vs) (length vs + (10 + j)) k.zero))
  unfolding draw_cpu_graph column_value Keeps
  draw_cpu_graph-record_all vs j r narrow low high =
      let ring = record_all vs empty_ring in
      let kept = record_all-Keeps vs (replicate 60 k.zero) empty_ring 0 empty-Keeps in
      let place : ((ring.1 + 60 - 50) % 60 + j) % 60 ≡ (ring.1 + (10 + j)) % 60 =
        omega (arith, narrow) in
      let start : 0 + length vs + (10 + j) ≡ length vs + (10 + j) = omega arith in
      let shown : column_value k bar_height ring j
          ≡ get_or (replicate 60 k.zero ++ vs) (length vs + (10 + j)) k.zero =
        ap (λ m. get_or ring.0 m k.zero) place
        ∙ kept.same (10 + j) (omega (arith, narrow))
        ∙ ap (λ m. get_or (replicate 60 k.zero ++ vs) m k.zero) start in
      let below : ltb (8 - r) 8 ≡ true = ground (arith, low, high) in
      drawn_by_lem 8 (bar_height (column_value k bar_height ring j)) r (omega arith) low high
      ∙ rw below (ap (λ v. leb r (bar_height v)) shown)
