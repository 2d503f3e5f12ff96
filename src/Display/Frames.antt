-- ===== src/Display/Frames.antt =====
-- What holds of the display through any use of it (src/advanced_display.c).
use hifetch.Common.{
  ℕ, zero, suc, ◌-◌, ◌*◌, ◌/◌, ◌≤◌, ◌<◌, ◌≡◌, refl, ap, inl, inr, Bool, true, false, ℤ, List, [],
  ◌∷◌, leb, length, length-append, max, arith, Bool-cases,
}
use hifetch.Display.Drawing.{full, shade, repeat, draw_progress_bar, next_frame, render_display}
use hifetch.Display.Widgets.{
  ThemeType, theme_arch, theme_ubuntu, theme_fedora, theme_debian, theme_gentoo, theme_matrix,
  theme_cyberpunk, theme_neon, theme_classic, theme_minimal, Theme, DisplayManager, load_theme,
  create_widget, new_widget,
}

length-repeat : (n : ℕ) (b : _) → length (repeat n b) ≡ n
unfolding repeat
length-repeat zero b = refl
length-repeat (suc n) b = ap suc (length-repeat n b)

-- The bar has as many cells as the larger of what is filled and of its width less the two brackets: a
-- bar near its end is wider than its width.
pub length-draw_progress_bar :
    (width percentage : ℕ)
    → length (draw_progress_bar width percentage) ≡ max (width * percentage / 100) (width - 2)
unfolding draw_progress_bar
length-draw_progress_bar width percentage =
    let filled = width * percentage / 100 in
    omega (
      arith,
      length-append (repeat filled full) (repeat (width - 2 - filled) shade),
      length-repeat filled full,
      length-repeat (width - 2 - filled) shade,
    )

-- The uses that change the display.
pub data Use : Type 0 where
  loads : ThemeType → Use
  creates : ℤ → ℤ → ℤ → ℤ → List ℕ → Use
  renders : Use

unfoldable pub use_display : Use → DisplayManager → DisplayManager
use_display (loads t) dm = load_theme t dm
use_display (creates x y w h title) dm = create_widget x y w h title dm
use_display renders dm = (render_display dm).0

unfoldable pub use_all : List Use → DisplayManager → DisplayManager
use_all [] dm = dm
use_all (u ∷ us) dm = use_all us (use_display u dm)

pub record IsSound (dm : DisplayManager) : Type 0 where
  pub few_widgets : length dm.widgets ≤ 64
  pub frame_in_range : dm.animation_frame < 30

-- Both flags that are set stay set.
pub record Keeps (dm dm' : DisplayManager) : Type 0 where
  pub animation :
      dm.current_theme.animation_enabled ≡ true → dm'.current_theme.animation_enabled ≡ true
  pub gradient : dm.current_theme.has_gradient ≡ true → dm'.current_theme.has_gradient ≡ true

themed-IsSound :
    (theme : Theme) (dm : DisplayManager)
    → IsSound dm
    → IsSound (record dm { current_theme = theme })
themed-IsSound theme dm s = record {
  few_widgets = s.few_widgets;
  frame_in_range = s.frame_in_range;
}

load_theme-Keeps : (t : ThemeType) (dm : DisplayManager) → Keeps dm (load_theme t dm)
unfolding load_theme
load_theme-Keeps theme_arch dm = record { animation = λ h. h; gradient = λ h. refl }
load_theme-Keeps theme_ubuntu dm = record { animation = λ h. h; gradient = λ h. h }
load_theme-Keeps theme_fedora dm = record { animation = λ h. h; gradient = λ h. h }
load_theme-Keeps theme_debian dm = record { animation = λ h. h; gradient = λ h. h }
load_theme-Keeps theme_gentoo dm = record { animation = λ h. h; gradient = λ h. h }
load_theme-Keeps theme_matrix dm = record { animation = λ h. refl; gradient = λ h. h }
load_theme-Keeps theme_cyberpunk dm = record { animation = λ h. refl; gradient = λ h. refl }
load_theme-Keeps theme_neon dm = record { animation = λ h. h; gradient = λ h. h }
load_theme-Keeps theme_classic dm = record { animation = λ h. h; gradient = λ h. h }
load_theme-Keeps theme_minimal dm = record { animation = λ h. h; gradient = λ h. h }

load_theme-IsSound : (t : ThemeType) (dm : DisplayManager) → IsSound dm → IsSound (load_theme t dm)
unfolding load_theme
load_theme-IsSound theme_arch dm s = themed-IsSound (load_theme theme_arch dm).current_theme dm s
load_theme-IsSound theme_ubuntu dm s =
    themed-IsSound (load_theme theme_ubuntu dm).current_theme dm s
load_theme-IsSound theme_fedora dm s =
    themed-IsSound (load_theme theme_fedora dm).current_theme dm s
load_theme-IsSound theme_debian dm s =
    themed-IsSound (load_theme theme_debian dm).current_theme dm s
load_theme-IsSound theme_gentoo dm s =
    themed-IsSound (load_theme theme_gentoo dm).current_theme dm s
load_theme-IsSound theme_matrix dm s =
    themed-IsSound (load_theme theme_matrix dm).current_theme dm s
load_theme-IsSound theme_cyberpunk dm s =
    themed-IsSound (load_theme theme_cyberpunk dm).current_theme dm s
load_theme-IsSound theme_neon dm s = themed-IsSound (load_theme theme_neon dm).current_theme dm s
load_theme-IsSound theme_classic dm s =
    themed-IsSound (load_theme theme_classic dm).current_theme dm s
load_theme-IsSound theme_minimal dm s =
    themed-IsSound (load_theme theme_minimal dm).current_theme dm s

next_frame-IsSound :
    (animated : Bool) (dm : DisplayManager)
    → IsSound dm
    → IsSound (next_frame animated dm) × Keeps dm (next_frame animated dm)
unfolding next_frame
next_frame-IsSound true dm s = (
  record { few_widgets = s.few_widgets; frame_in_range = omega arith },
  record { animation = λ h. h; gradient = λ h. h },
)
next_frame-IsSound false dm s = (s, record { animation = λ h. h; gradient = λ h. h })

use_display-IsSound :
    (u : Use) (dm : DisplayManager)
    → IsSound dm
    → IsSound (use_display u dm) × Keeps dm (use_display u dm)
unfolding use_display create_widget render_display
use_display-IsSound (loads t) dm s = (load_theme-IsSound t dm s, load_theme-Keeps t dm)
use_display-IsSound (creates x y w h title) dm s = elim (Bool-cases (leb 64 (length dm.widgets))) [
  | inl full_up ↦ rw full_up (s, record { animation = λ h. h; gradient = λ h. h })
  | inr room ↦ rw room (
    record {
      few_widgets =
          ground (arith, room, length-append dm.widgets (new_widget x y w h title dm ∷ []));
      frame_in_range = s.frame_in_range;
    },
    record { animation = λ h. h; gradient = λ h. h },
  )
]
use_display-IsSound renders dm s = next_frame-IsSound dm.current_theme.animation_enabled dm s

-- In any sequence of `load_theme`, `create_widget` and `render_display` there are at most 64 widgets
-- and the frame is below 30, if that is so at the beginning. A theme that was animated, or had a
-- gradient, leaves that on for every theme after it.
pub use_all-IsSound :
    (us : List Use) (dm : DisplayManager)
    → IsSound dm
    → IsSound (use_all us dm) × Keeps dm (use_all us dm)
unfolding use_all
use_all-IsSound [] dm s = (s, record { animation = λ h. h; gradient = λ h. h })
use_all-IsSound (u ∷ us) dm s =
    let (sound, keeps) = use_display-IsSound u dm s in
    let (sound', keeps') = use_all-IsSound us (use_display u dm) sound in
    (
      sound',
      record {
        animation = λ h. keeps'.animation (keeps.animation h);
        gradient = λ h. keeps'.gradient (keeps.gradient h);
      },
    )
