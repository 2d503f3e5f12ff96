-- ===== src/Sysinfo/Desktop.antt =====
-- Desktop, terminal, network, battery, display and locale (src/sysinfo.c, `get_desktop_info` to
-- `get_locale_info`).
use hifetch.Common.{
  Real, ℕ, Bool, false, ◌&&◌, pos, negsuc, List, ◌++◌, Option, none, some, ◌==◌, if◌then◌else◌,
  is_some, str_eq,
}
use hifetch.Strings.{trim_string}
use hifetch.Sysinfo.Facts.{bounded, or_text}
use hifetch.Sysinfo.State.{SystemInfo, Sources, Formats}
use hifetch.Sysinfo.Tables.{contains}
use hifetch.Sysinfo.Texts.{
  unknown, kde, gnome, kwin, mutter, wayland, x11, up, wifi, ethernet, disconnected, full, charging,
  ac_connected, battery_open, battery_status, battery_close, no_battery, display_wayland,
  display_x11, tty,
}

-- The first of two that is there.
abbrev pub or_else_text : Option (List ℕ) → Option (List ℕ) → Option (List ℕ)
or_else_text none b = b
or_else_text (some a) b = some a

unfoldable pub wm_of : Bool → List ℕ → List ℕ
wm_of on_wayland de =
    if on_wayland
    then (if contains de kde then kwin else if contains de gnome then mutter else wayland)
    else x11

-- A file that can be read and says "up".
abbrev pub is_up : Option (List ℕ) → Bool
is_up none = false
is_up (some buffer) = contains buffer up

-- The text in brackets, from the status of the battery.
unfoldable pub battery_state : Bool → List ℕ → List ℕ
battery_state connected status =
    if connected && str_eq status full
    then full
    else if str_eq status charging
    then charging
    else if connected
    then ac_connected
    else status

module _ {D : Type 0} (k : Real D) (f : Formats D) where
  unfoldable pub get_desktop_info : Sources → SystemInfo D → SystemInfo D
  get_desktop_info s info =
      let de = or_text unknown (or_else_text s.xdg_current_desktop s.desktop_session) in
      record info { de = de; de_version = de; wm = wm_of (is_some s.wayland_display) de }

  unfoldable pub get_detailed_theme_info : SystemInfo D → SystemInfo D
  get_detailed_theme_info info = record info {
    gtk_theme = unknown;
    qt_theme = unknown;
    wm_theme = unknown;
    icon_theme = unknown;
    cursor_theme = unknown;
    font = unknown;
  }

  unfoldable pub get_terminal_info : Sources → SystemInfo D → SystemInfo D
  get_terminal_info s info = record info {
    terminal = or_text unknown (or_else_text s.term_program s.terminal_variable);
    terminal_font = unknown;
  }

  unfoldable pub get_network_info : Sources → SystemInfo D → SystemInfo D
  get_network_info s info = record info {
    local_ip =
        if is_up s.wlan0_operstate
        then wifi
        else if is_up s.eth0_operstate
        then ethernet
        else disconnected;
  }

  -- The first of the three files that can be read decides.
  unfoldable pub ac_of : Sources → Bool
  ac_of s = elim (or_else_text s.adp1_online (or_else_text s.ac0_online s.acad_online)) [
    | none ↦ false
    | some ac_status ↦ elim (f.atoi ac_status) [ pos n ↦ n == 1 | negsuc n ↦ false ]
  ]

  unfoldable pub status_of : Option (List ℕ) → List ℕ
  status_of none = unknown
  status_of (some status) = trim_string status

  unfoldable pub battery_of : Sources → List ℕ
  battery_of s = elim s.bat0_capacity [
    | none ↦ no_battery
    | some capacity ↦ bounded (
        battery_open
        ++ f.dec (f.atoi capacity)
        ++ battery_status
        ++ battery_state (ac_of s) (status_of s.bat0_status)
        ++ battery_close)
  ]

  unfoldable pub get_battery_info : Sources → SystemInfo D → SystemInfo D
  get_battery_info s info = record info { battery = battery_of s }

  unfoldable pub get_display_info : Sources → SystemInfo D → SystemInfo D
  get_display_info s info = record info {
    display =
        if is_some s.wayland_display
        then display_wayland
        else if is_some s.x_display
        then display_x11
        else tty;
  }

  unfoldable pub get_locale_info : Sources → SystemInfo D → SystemInfo D
  get_locale_info s info = record info { locale = or_text unknown s.lang }
