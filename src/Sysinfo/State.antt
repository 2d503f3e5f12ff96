-- ===== src/Sysinfo/State.antt =====
-- The record that is filled, and what the code reads to fill it (include/sysfetch.h). A field that
-- is an array of bytes is the text in it; where the code uses `strcpy` the text is taken to fit.
use hifetch.Common.{ℕ, ℤ, List, Option}

-- `resolution` and `refresh_rate` are written nowhere.
pub record SystemInfo (D : Type 0) : Type 0 where
  pub hostname : List ℕ
  pub username : List ℕ
  pub os_name : List ℕ
  pub kernel : List ℕ
  pub uptime : List ℕ
  pub shell : List ℕ
  pub cpu_model : List ℕ
  pub cpu_cores : ℤ
  pub cpu_freq : D
  pub memory : List ℕ
  pub swap : List ℕ
  pub disk : List ℕ
  pub gpu : List (List ℕ)
  pub packages : List ℕ
  pub de : List ℕ
  pub de_version : List ℕ
  pub wm : List ℕ
  pub wm_theme : List ℕ
  pub gtk_theme : List ℕ
  pub qt_theme : List ℕ
  pub icon_theme : List ℕ
  pub cursor_theme : List ℕ
  pub font : List ℕ
  pub terminal : List ℕ
  pub terminal_font : List ℕ
  pub local_ip : List ℕ
  pub battery : List ℕ
  pub locale : List ℕ
  pub display : List ℕ

-- `f_blocks`, `f_frsize` and `f_bavail`.
pub record FileSystem : Type 0 where
  pub blocks : ℕ
  pub frsize : ℕ
  pub bavail : ℕ

-- What the system answers; `none` is an error, a missing file or an unset variable. A directory is
-- the list of the names in it.
pub record Sources : Type 0 where
  pub gethostname : Option (List ℕ)
  pub user : Option (List ℕ)
  pub os_release : Option (List ℕ)
  pub uname : Option (List ℕ × List ℕ)
  pub sysinfo_uptime : Option ℕ
  pub shell_variable : Option (List ℕ)
  pub scaling_cur_freq : Option (List ℕ)
  pub cpuinfo_max_freq : Option (List ℕ)
  pub cpuinfo : Option (List ℕ)
  pub processors : ℤ
  pub meminfo : Option (List ℕ)
  pub swap_meminfo : Option (List ℕ)
  pub root : Option FileSystem
  pub lspci : Option (List ℕ)
  pub pacman_local : Option (List (List ℕ))
  pub flatpak_app : Option (List (List ℕ))
  pub user_flatpak_app : Option (List (List ℕ))
  pub snap_dir : Option (List (List ℕ))
  pub xdg_current_desktop : Option (List ℕ)
  pub desktop_session : Option (List ℕ)
  pub wayland_display : Option (List ℕ)
  pub x_display : Option (List ℕ)
  pub term_program : Option (List ℕ)
  pub terminal_variable : Option (List ℕ)
  pub wlan0_operstate : Option (List ℕ)
  pub eth0_operstate : Option (List ℕ)
  pub bat0_capacity : Option (List ℕ)
  pub bat0_status : Option (List ℕ)
  pub adp1_online : Option (List ℕ)
  pub ac0_online : Option (List ℕ)
  pub acad_online : Option (List ℕ)
  pub lang : Option (List ℕ)

-- The conversions of the C library: `%d` and `%ld`, `%.2f`, `%lu` (with the blanks before it),
-- `atoi` and `atof`; `div n m` is `n / m` for two values and `mul` the product, as `double`, and
-- `truncate` is the cast to `int`.
pub record Formats (D : Type 0) : Type 0 where
  pub dec : ℤ → List ℕ
  pub fixed : D → List ℕ
  pub scan_lu : List ℕ → Option ℕ
  pub atoi : List ℕ → ℤ
  pub atof : List ℕ → D
  pub of_ℕ : ℕ → D
  pub div : D → D → D
  pub mul : D → D → D
  pub truncate : D → ℤ
