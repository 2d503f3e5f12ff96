-- ===== src/Hitop/Display.antt =====
-- The rows of the process list (src/process.c, `display_processes`).
use hifetch.Common.{
  ℕ, zero, suc, Bool, not, ◌&&◌, List, [], ◌∷◌, Option, none, some, if◌then◌else◌, ltb_ℤ, ℤ, pos,
  ◌+ℤ◌, ◌-ℤ◌, at_ℤ, pos_part,
}
use hifetch.Hitop.State.{Process, ProcessList}
use mathlib.Core.Option

abbrev pub eq_ℤ : ℤ → ℤ → Bool
eq_ℤ a b = not (ltb_ℤ a b) && not (ltb_ℤ b a)

module _ {D : Type 0} where
  abbrev pub display_count : ℕ → ProcessList D → ℤ
  display_count max_y plist =
      let rows = pos max_y -ℤ pos 6 in
      if ltb_ℤ (pos plist.count) rows then pos plist.count else rows

  -- The two tests that move `plist->offset`.
  unfoldable pub scroll : ℕ → ProcessList D → ℤ
  scroll max_y plist =
      let rows = display_count max_y plist in
      let offset =
        if ltb_ℤ plist.selected (plist.offset +ℤ rows)
        then plist.offset
        else plist.selected -ℤ rows +ℤ pos 1 in
      if ltb_ℤ plist.selected offset then plist.selected else offset

  -- The loop over the rows: `n` are left, of which the first shows the process at `proc_idx`. A row
  -- is the process with whether it is highlighted; `none` is a read outside the array.
  unfoldable pub draw_rows : ℕ → ℤ → ProcessList D → Option (List (Process D × Bool))
  draw_rows zero proc_idx plist = some []
  draw_rows (suc n) proc_idx plist =
      let rest = draw_rows n (proc_idx +ℤ pos 1) plist in
      if ltb_ℤ proc_idx (pos plist.count)
      then elim (at_ℤ plist.processes proc_idx) [
        | some p ↦ Option.map (λ rows. (p, eq_ℤ proc_idx plist.selected) ∷ rows) rest
        | none ↦ none
      ]
      else some []

  -- The list with its new offset, and the rows.
  unfoldable pub display_processes :
      ℕ → ProcessList D → ProcessList D × Option (List (Process D × Bool))
  display_processes max_y plist =
      let plist' = record plist { offset = scroll max_y plist } in
      (plist', draw_rows (pos_part (display_count max_y plist)) plist'.offset plist')
