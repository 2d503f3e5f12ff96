-- ===== src/Display/Drawing.antt =====
-- What is drawn (src/advanced_display.c, `draw_progress_bar`, `draw_box`, `render_widget` and
-- `render_display`), as the cells that are written in their order.
use hifetch.Common.{
  ℕ, zero, suc, ◌+◌, ◌-◌, ◌*◌, ◌/◌, ◌%◌, Bool, true, false, List, [], ◌∷◌, ◌++◌, if◌then◌else◌,
}
use hifetch.Display.Widgets.{Widget, DisplayManager, animation_frames}

-- A cell of a bar.
pub data Block : Type 0 where
  full shade : Block

-- `for (int i = from; i < to; i++) printf(...)`, with `n` rounds.
unfoldable pub repeat : ℕ → Block → List Block
repeat zero block = []
repeat (suc n) block = block ∷ repeat n block

-- The cells between the brackets, for a width and a percentage that are not negative.
unfoldable pub draw_progress_bar : ℕ → ℕ → List Block
draw_progress_bar width percentage =
    let filled = width * percentage / 100 in repeat filled full ++ repeat (width - 2 - filled) shade

-- The frame that follows, where the theme is animated.
unfoldable pub next_frame : Bool → DisplayManager → DisplayManager
next_frame true dm = record dm { animation_frame = (dm.animation_frame + 1) % animation_frames }
next_frame false dm = dm

unfoldable pub visible_widgets : List Widget → List Widget
visible_widgets [] = []
visible_widgets (w ∷ widgets) =
    let rest = visible_widgets widgets in if w.is_visible then w ∷ rest else rest

-- The display afterwards, and the widgets that are rendered.
unfoldable pub render_display : DisplayManager → DisplayManager × List Widget
render_display dm =
    let next = next_frame dm.current_theme.animation_enabled dm in
    (next, visible_widgets next.widgets)
