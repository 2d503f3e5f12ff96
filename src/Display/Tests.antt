-- ===== src/Display/Tests.antt =====
-- A display with one widget (src/advanced_display.c).
use hifetch.Common.{true, false, pos, List, [], ◌∷◌, arith}
use hifetch.Display.Frames.{Use, loads, creates, renders, use_all, IsSound, Keeps, use_all-IsSound}
use hifetch.Display.Widgets.{Color, DisplayManager, theme_matrix, theme_ubuntu}

abbrev black : Color
black = record { r = 0; g = 0; b = 0; ansi_code = [] }

abbrev blank : DisplayManager
blank = record {
  widgets = [];
  current_theme = record {
    name = [];
    primary = black;
    secondary = black;
    accent = black;
    background = black;
    has_gradient = false;
    animation_enabled = true;
  };
  animation_frame = 29;
}

blank-IsSound : IsSound blank
blank-IsSound = record { few_widgets = omega arith; frame_in_range = omega arith }

abbrev uses : List Use
uses =
    loads theme_matrix
    ∷ creates (pos 1) (pos 2) (pos 30) (pos 5) (b'w' ∷ [])
    ∷ renders
    ∷ loads theme_ubuntu
    ∷ renders
    ∷ []

use_all-IsSound_example : IsSound (use_all uses blank) × Keeps blank (use_all uses blank)
use_all-IsSound_example = use_all-IsSound uses blank blank-IsSound
