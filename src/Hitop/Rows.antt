-- ===== src/Hitop/Rows.antt =====
-- What the rows of the process list show (src/process.c, `display_processes`).
use hifetch.Common.{
  ℕ, zero, suc, ◌+◌, ◌-◌, ◌≤◌, ◌<◌, ◌≡◌, refl, ap, sym, ◌∙◌, inl, inr, Bool, true, false, List, [],
  ◌∷◌, some, arith, ltb, ltb_ℤ, ltb→lt, pos, ◌+ℤ◌, get_elem?, length, Bool-cases, ==_iff, ◌==◌,
}
use hifetch.Hitop.Cursor.{at_some}
use hifetch.Hitop.Display.{eq_ℤ, draw_rows}
use hifetch.Hitop.State.{Process, ProcessList}
use mathlib.Core.Option

pos_suc : (o : ℕ) → pos o +ℤ pos 1 ≡ pos (suc o)
pos_suc o = ground arith

eq_ℤ_refl : (s : ℕ) → eq_ℤ (pos s) (pos s) ≡ true
eq_ℤ_refl s = ground arith

get_elem?-cons :
    {A : Type 0} (x : A) (xs : List A) (s o : ℕ)
    → suc o ≤ s
    → get_elem? (x ∷ xs) (s - o) ≡ get_elem? xs (s - suc o)
get_elem?-cons x xs s o h =
    let e : s - o ≡ suc (s - suc o) = omega arith in ap (get_elem? (x ∷ xs)) e

module _ {D : Type 0} where
  draw_stop :
      (n o : ℕ) (plist : ProcessList D)
      → ltb_ℤ (pos o) (pos plist.count) ≡ false
      → draw_rows (suc n) (pos o) plist ≡ some []
  unfolding draw_rows
  draw_stop n o plist stop = rw (stop, draw_rows) refl

  draw_next :
      (n o : ℕ) (plist : ProcessList D) (p : Process D) (rows : List (Process D × Bool))
      → ltb_ℤ (pos o) (pos plist.count) ≡ true
      → get_elem? plist.processes o ≡ some p
      → draw_rows n (pos (suc o)) plist ≡ some rows
      → draw_rows (suc n) (pos o) plist ≡ some ((p, eq_ℤ (pos o) plist.selected) ∷ rows)
  unfolding draw_rows
  draw_next n o plist p rows more at e =
      rw (more, at, pos_suc o) (ap (Option.map (λ rs. (p, eq_ℤ (pos o) plist.selected) ∷ rs)) e)

  -- The rows that are drawn from `proc_idx` on.
  pub record Draws (n o : ℕ) (plist : ProcessList D) : Type 0 where
    pub rows : List (Process D × Bool)
    pub drawn : draw_rows n (pos o) plist ≡ some rows
    pub few : length rows ≤ n
    pub highlights :
        (s : ℕ) (p : Process D)
        → plist.selected ≡ pos s
        → get_elem? plist.processes s ≡ some p
        → o ≤ s
        → s < o + n
        → s < plist.count
        → get_elem? rows (s - o) ≡ some (p, true)

  draw_more :
      (n o : ℕ) (plist : ProcessList D) (p : Process D)
      → get_elem? plist.processes o ≡ some p
      → o < plist.count
      → Draws n (suc o) plist
      → Draws (suc n) o plist
  draw_more n o plist p at shown d = record {
    rows = (p, eq_ℤ (pos o) plist.selected) ∷ d.rows;
    drawn = draw_next n o plist p d.rows (ground (arith, shown)) at d.drawn;
    few = omega (arith, d.few);
    highlights = λ s q is_s at_s low high count. elim (Bool-cases (s == o)) [
      | inl here ↦
          let e : s ≡ o = (==_iff s o).0 here in
          let same : some p ≡ some q = sym at ∙ ap (get_elem? plist.processes) (sym e) ∙ at_s in
          let top : s - o ≡ 0 = omega arith in
          let lit : eq_ℤ (pos o) plist.selected ≡ true =
            ap (eq_ℤ (pos o)) (is_s ∙ ap pos e) ∙ eq_ℤ_refl o in
          rw (top, lit) (ap (Option.map (λ r. (r, true))) same)
      | inr later ↦
          let below : suc o ≤ s = ground (arith, later, low) in
          get_elem?-cons _ d.rows s o below
          ∙ d.highlights s q is_s at_s below (omega (arith, high)) count
    ];
  }

  pub draw_rows_lem :
      (n o : ℕ) (plist : ProcessList D) → plist.count ≤ length plist.processes → Draws n o plist
  unfolding draw_rows
  draw_rows_lem zero o plist stored = record {
    rows = [];
    drawn = refl;
    few = omega arith;
    highlights = λ s p is_s at_s low high count. absurd (omega arith);
  }
  draw_rows_lem (suc n) o plist stored = elim (Bool-cases (ltb o plist.count)) [
    | inl more ↦
        let (p, at) = at_some plist.processes o (omega (arith, ltb→lt o plist.count more)) in
        draw_more n o plist p at (ltb→lt o plist.count more) (draw_rows_lem n (suc o) plist stored)
    | inr stop ↦ record {
      rows = [];
      drawn = draw_stop n o plist (ground (arith, stop));
      few = omega arith;
      highlights = λ s p is_s at_s low high count. absurd (ground (arith, stop));
    }
  ]
