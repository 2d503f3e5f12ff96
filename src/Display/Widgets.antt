-- ===== src/Display/Widgets.antt =====
-- Themes and widgets (src/advanced_display.c, `load_theme` and `create_widget`;
-- include/advanced_display.h).
use hifetch.Common.{codes, ℕ, Bool, true, ℤ, List, [], ◌∷◌, ◌++◌, if◌then◌else◌, leb, length, take}

abbrev pub max_widgets : ℕ
max_widgets = 64

abbrev pub animation_frames : ℕ
animation_frames = 30

pub data ThemeType : Type 0 where
  theme_arch theme_ubuntu theme_fedora theme_debian theme_gentoo theme_matrix : ThemeType
  theme_cyberpunk theme_neon theme_classic theme_minimal : ThemeType

pub record Color : Type 0 where
  pub r : ℕ
  pub g : ℕ
  pub b : ℕ
  pub ansi_code : List ℕ

-- The fields that are written or read.
pub record Theme : Type 0 where
  pub name : List ℕ
  pub primary : Color
  pub secondary : Color
  pub accent : Color
  pub background : Color
  pub has_gradient : Bool
  pub animation_enabled : Bool

pub record Widget : Type 0 where
  pub x : ℤ
  pub y : ℤ
  pub width : ℤ
  pub height : ℤ
  pub title : List ℕ
  pub content : List ℕ
  pub border_color : Color
  pub bg_color : Color
  pub is_visible : Bool
  pub has_border : Bool

-- `widgets` is the list of the entries in use.
pub record DisplayManager : Type 0 where
  pub widgets : List Widget
  pub current_theme : Theme
  pub animation_frame : ℕ

-- `ansi_code` is an array of 16 bytes: a longer text loses what comes after them, and its terminator.
abbrev color : ℕ → ℕ → ℕ → List ℕ → Color
color r g b ansi_code = record { r = r; g = g; b = b; ansi_code = take 16 ansi_code }

-- `load_theme` writes a name and three colors, and sets the flags that a theme has.
abbrev painted : List ℕ → Color → Color → Color → Theme → Theme
painted name primary secondary accent theme = record theme {
  name = name;
  primary = primary;
  secondary = secondary;
  accent = accent;
}

abbrev arch : Theme → Theme
arch =
    painted (codes "Arch Linux") (color 23 147 209 (codes "\u{1b}[38;2;23;147;209m"))
      (color 0 188 255 (codes "\u{1b}[38;2;0;188;255m"))
      (color 255 255 255 (codes "\u{1b}[38;2;255;255;255m"))

abbrev ubuntu : Theme → Theme
ubuntu =
    painted (codes "Ubuntu") (color 233 84 32 (codes "\u{1b}[38;2;233;84;32m"))
      (color 119 41 83 (codes "\u{1b}[38;2;119;41;83m"))
      (color 255 255 255 (codes "\u{1b}[38;2;255;255;255m"))

abbrev matrix : Theme → Theme
matrix =
    painted (codes "Matrix") (color 0 255 0 (codes "\u{1b}[38;2;0;255;0m"))
      (color 0 128 0 (codes "\u{1b}[38;2;0;128;0m"))
      (color 255 255 255 (codes "\u{1b}[38;2;255;255;255m"))

abbrev cyberpunk : Theme → Theme
cyberpunk =
    painted (codes "Cyberpunk") (color 255 0 255 (codes "\u{1b}[38;2;255;0;255m"))
      (color 0 255 255 (codes "\u{1b}[38;2;0;255;255m"))
      (color 255 255 0 (codes "\u{1b}[38;2;255;255;0m"))

abbrev default : Theme → Theme
default =
    painted (codes "Default") (color 255 255 255 (codes "\u{1b}[37m"))
      (color 128 128 128 (codes "\u{1b}[90m")) (color 255 255 255 (codes "\u{1b}[37m"))

unfoldable pub load_theme : ThemeType → DisplayManager → DisplayManager
load_theme theme_arch dm = record dm {
  current_theme = record (arch dm.current_theme) { has_gradient = true };
}
load_theme theme_ubuntu dm = record dm { current_theme = ubuntu dm.current_theme }
load_theme theme_matrix dm = record dm {
  current_theme = record (matrix dm.current_theme) { animation_enabled = true };
}
load_theme theme_cyberpunk dm = record dm {
  current_theme = record (cyberpunk dm.current_theme) {
    has_gradient = true;
    animation_enabled = true;
  };
}
load_theme other dm = record dm { current_theme = default dm.current_theme }

-- An entry that is new has no content.
abbrev pub new_widget : ℤ → ℤ → ℤ → ℤ → List ℕ → DisplayManager → Widget
new_widget x y w h title dm = record {
  x = x;
  y = y;
  width = w;
  height = h;
  title = title;
  content = [];
  border_color = dm.current_theme.primary;
  bg_color = dm.current_theme.background;
  is_visible = true;
  has_border = true;
}

unfoldable pub create_widget : ℤ → ℤ → ℤ → ℤ → List ℕ → DisplayManager → DisplayManager
create_widget x y w h title dm =
    if leb max_widgets (length dm.widgets)
    then dm
    else record dm { widgets = dm.widgets ++ new_widget x y w h title dm ∷ [] }
