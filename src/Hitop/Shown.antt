-- ===== src/Hitop/Shown.antt =====
-- The cursor's row is in view (src/process.c, `display_processes`).
use hifetch.Common.{
  ℕ, ◌+◌, ◌-◌, ◌≤◌, ◌<◌, ◌≡◌, refl, ap, ◌∙◌, subst, subst⁻¹, Bool, true, List, some, arith,
  if◌then◌else◌, ltb_ℤ, ℤ, pos, negsuc, ◌+ℤ◌, ◌-ℤ◌, ◌≤ℤ◌, ◌<ℤ◌, at_ℤ, pos_part, get_elem?, length,
  Leaves,
}
use hifetch.Hitop.Cursor.{IsValid, at_some}
use hifetch.Hitop.Display.{display_count, scroll, draw_rows, display_processes}
use hifetch.Hitop.Rows.{draw_rows_lem}
use hifetch.Hitop.State.{Process, ProcessList}

abbrev scrolled : ℤ → ℤ → ℤ → ℤ
scrolled s o r =
    let offset = if ltb_ℤ s (o +ℤ r) then o else s -ℤ r +ℤ pos 1 in
    if ltb_ℤ s offset then s else offset

scroll_bounds :
    (s o r : ℤ)
    → pos 0 ≤ℤ s
    → pos 0 ≤ℤ o
    → pos 0 <ℤ r
    → (pos 0 ≤ℤ scrolled s o r) × (scrolled s o r ≤ℤ s) × (s <ℤ scrolled s o r +ℤ r)
scroll_bounds (pos s) (pos o) (pos r) hs ho hr = ground arith
scroll_bounds (negsuc s) o r hs ho hr = absurd (omega arith)
scroll_bounds s (negsuc o) r hs ho hr = absurd (omega arith)
scroll_bounds s o (negsuc r) hs ho hr = absurd (omega arith)

display_count_positive :
    (max_y count : ℕ)
    → 7 ≤ max_y
    → 0 < count
    → pos 0 <ℤ (if ltb_ℤ (pos count) (pos max_y -ℤ pos 6) then pos count else pos max_y -ℤ pos 6)
display_count_positive max_y count tall some_shown = ground arith

display_count_few :
    (max_y count : ℕ)
    → 7 ≤ max_y
    → pos_part (if ltb_ℤ (pos count) (pos max_y -ℤ pos 6) then pos count else pos max_y -ℤ pos 6)
        + 6
      ≤ max_y
display_count_few max_y count tall = ground arith

from_pos : (i : ℤ) → pos 0 ≤ℤ i → (n : ℕ) × (i ≡ pos n)
from_pos (pos n) h = (n, refl)
from_pos (negsuc n) h = absurd (omega arith)

in_view : (o s : ℕ) (r : ℤ) → pos o ≤ℤ pos s → pos s <ℤ pos o +ℤ r → (o ≤ s) × (s < o + pos_part r)
in_view o s (pos r) low high = ground arith
in_view o s (negsuc r) low high = ground arith

module _ {D : Type 0} where
  -- The rows fit above the six lines that are kept free, and the process under the cursor is one of
  -- them, highlighted.
  unfoldable pub ShowsCursor : ℕ → ProcessList D → List (Process D × Bool) → Type 0
  ShowsCursor max_y plist rows =
      (length rows + 6 ≤ max_y)
      × (k : ℕ) × (p : Process D) × (at_ℤ plist.processes plist.selected ≡ some p)
      × (get_elem? rows k ≡ some (p, true))

  -- The cursor's row stays in view, and the first row is a place of the array.
  scroll_lem :
      (max_y : ℕ) (plist : ProcessList D)
      → IsValid plist
      → pos 0 ≤ℤ plist.offset
      → 7 ≤ max_y
      → (pos 0 ≤ℤ scroll max_y plist)
        × (scroll max_y plist ≤ℤ plist.selected)
        × (plist.selected <ℤ scroll max_y plist +ℤ display_count max_y plist)
  unfolding scroll
  scroll_lem max_y plist v h tall =
      scroll_bounds plist.selected plist.offset (display_count max_y plist) v.low h
        (display_count_positive max_y plist.count tall (omega (arith, v.low, v.high)))

  -- The rows from index `o` on, where the cursor's process is one of them.
  rows_shown :
      (max_y n o s : ℕ) (plist : ProcessList D)
      → plist.count ≤ length plist.processes
      → plist.selected ≡ pos s
      → s < plist.count
      → n + 6 ≤ max_y
      → (o ≤ s) × (s < o + n)
      → Leaves (draw_rows n (pos o) plist) (ShowsCursor max_y plist)
  unfolding Leaves ShowsCursor
  rows_shown max_y n o s plist stored is_s shown few (low, high) =
      let d = draw_rows_lem n o plist stored in
      let (p, at) = at_some plist.processes s (omega arith) in
      rw (d.drawn) (
        omega (arith, d.few, few),
        s - o,
        p,
        ap (at_ℤ plist.processes) is_s ∙ at,
        d.highlights s p is_s at low high shown,
      )

  shows_from :
      (max_y : ℕ) (plist : ProcessList D)
      → IsValid plist
      → (s o : ℕ) → 7 ≤ max_y
      → plist.selected ≡ pos s
      → scroll max_y plist ≡ pos o
      → scroll max_y plist ≤ℤ plist.selected
      → plist.selected <ℤ scroll max_y plist +ℤ display_count max_y plist
      → Leaves (display_processes max_y plist).1 (ShowsCursor max_y plist)
  unfolding display_processes ShowsCursor
  shows_from max_y plist v s o tall is_s is_o below above =
      let r = display_count max_y plist in
      let low : pos o ≤ℤ pos s =
        subst (λ b. b ≤ℤ pos s) is_o (subst (λ a. scroll max_y plist ≤ℤ a) is_s below) in
      let high : pos s <ℤ pos o +ℤ r =
        subst (λ b. pos s <ℤ b +ℤ r) is_o (subst (λ a. a <ℤ scroll max_y plist +ℤ r) is_s above) in
      let shown : pos s <ℤ pos plist.count = subst (λ a. a <ℤ pos plist.count) is_s v.high in
      let plist' = record plist { offset = scroll max_y plist } in
      let rows =
        rows_shown max_y (pos_part r) o s plist' v.stored is_s (omega (arith, shown))
          (display_count_few max_y plist.count tall) (in_view o s r low high) in
      subst⁻¹ (λ b. Leaves (draw_rows (pos_part r) b plist') (ShowsCursor max_y plist)) is_o rows

  -- With the cursor on a process that is shown, an offset that is not negative and at least seven
  -- lines of screen, the rows are drawn with no read outside the array, they leave six lines of the
  -- screen free, the process under the cursor is one of them and is highlighted, and the new offset
  -- is not negative.
  pub display_processes-shows :
      (max_y : ℕ) (plist : ProcessList D)
      → IsValid plist
      → pos 0 ≤ℤ plist.offset
      → 7 ≤ max_y
      → let (plist', answer) = display_processes max_y plist in
        (pos 0 ≤ℤ plist'.offset) × Leaves answer (ShowsCursor max_y plist)
  unfolding display_processes
  display_processes-shows max_y plist v h tall =
      let (low, below, above) = scroll_lem max_y plist v h tall in
      let (s, is_s) = from_pos plist.selected v.low in
      let (o, is_o) = from_pos (scroll max_y plist) low in
      (low, shows_from max_y plist v s o tall is_s is_o below above)
