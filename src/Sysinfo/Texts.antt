-- ===== src/Sysinfo/Texts.antt =====
-- The texts that src/sysinfo.c compares and prints.
use hifetch.Common.{codes, ℕ, List, [], ◌∷◌}

abbrev pub unknown_host : List ℕ
unknown_host = codes "unknown"

abbrev pub unknown : List ℕ
unknown = codes "Unknown"

abbrev pub linux : List ℕ
linux = codes "Linux"

abbrev pub pretty_name : List ℕ
pretty_name = codes "PRETTY_NAME=\""

abbrev pub quote_mark : List ℕ
quote_mark = 34 ∷ []

abbrev pub day : List ℕ
day = codes " day"

abbrev pub hour_sep : List ℕ
hour_sep = codes ", "

abbrev pub hour : List ℕ
hour = codes " hour"

abbrev pub minute : List ℕ
minute = codes " min"

abbrev pub plural : List ℕ
plural = b's' ∷ []

abbrev pub short_hours : List ℕ
short_hours = codes "h "

abbrev pub short_minutes : List ℕ
short_minutes = b'm' ∷ []

abbrev pub model_name : List ℕ
model_name = codes "model name"

abbrev pub unknown_cpu : List ℕ
unknown_cpu = codes "Unknown CPU"

abbrev pub cores_open : List ℕ
cores_open = codes " ("

abbrev pub cores_close : List ℕ
cores_close = b')' ∷ []

abbrev pub at_sign : List ℕ
at_sign = codes ") @ "

abbrev pub gigahertz : List ℕ
gigahertz = codes " GHz"

abbrev pub mem_total : List ℕ
mem_total = codes "MemTotal:"

abbrev pub mem_available : List ℕ
mem_available = codes "MemAvailable:"

abbrev pub swap_total : List ℕ
swap_total = codes "SwapTotal:"

abbrev pub swap_free : List ℕ
swap_free = codes "SwapFree:"

abbrev pub mebi_of : List ℕ
mebi_of = codes " MiB / "

abbrev pub gibi_of : List ℕ
gibi_of = codes " GiB / "

abbrev pub gibi_open : List ℕ
gibi_open = codes " GiB ("

abbrev pub percent_close : List ℕ
percent_close = codes "%)"

abbrev pub no_swap : List ℕ
no_swap = codes "No swap"

abbrev pub disk_open : List ℕ
disk_open = codes "Disk (/): "

abbrev pub disk_of : List ℕ
disk_of = codes "G/"

abbrev pub disk_pct : List ℕ
disk_pct = codes "G ("

abbrev pub unknown_gpu : List ℕ
unknown_gpu = codes "Unknown GPU"

abbrev pub intel : List ℕ
intel = codes "Intel"

abbrev pub nvidia : List ℕ
nvidia = codes "NVIDIA"

abbrev pub geforce : List ℕ
geforce = codes "GeForce"

abbrev pub amd : List ℕ
amd = codes "AMD"

abbrev pub ati : List ℕ
ati = codes "ATI"

abbrev pub radeon : List ℕ
radeon = codes "Radeon"

abbrev pub integrated : List ℕ
integrated = codes " [Integrated]"

abbrev pub discrete : List ℕ
discrete = codes " [Discrete]"

abbrev pub too_long : List ℕ
too_long = codes "GPU Info Too Long"

abbrev pub dot : List ℕ
dot = b'.' ∷ []

abbrev pub dot_dot : List ℕ
dot_dot = codes ".."

abbrev pub pacman : List ℕ
pacman = codes " (pacman)"

abbrev pub flatpak : List ℕ
flatpak = codes " (flatpak)"

abbrev pub snap : List ℕ
snap = codes " (snap)"

abbrev pub kde : List ℕ
kde = codes "KDE"

abbrev pub gnome : List ℕ
gnome = codes "GNOME"

abbrev pub kwin : List ℕ
kwin = codes "KWin (Wayland)"

abbrev pub mutter : List ℕ
mutter = codes "Mutter (Wayland)"

abbrev pub wayland : List ℕ
wayland = codes "Wayland Compositor"

abbrev pub x11 : List ℕ
x11 = codes "X11"

abbrev pub up : List ℕ
up = codes "up"

abbrev pub wifi : List ℕ
wifi = codes "WiFi: Connected"

abbrev pub ethernet : List ℕ
ethernet = codes "Ethernet: Connected"

abbrev pub disconnected : List ℕ
disconnected = codes "Network: Disconnected"

abbrev pub full : List ℕ
full = codes "Full"

abbrev pub charging : List ℕ
charging = codes "Charging"

abbrev pub ac_connected : List ℕ
ac_connected = codes "AC Connected"

abbrev pub battery_open : List ℕ
battery_open = codes "Battery (Primary): "

abbrev pub battery_status : List ℕ
battery_status = codes "% ["

abbrev pub battery_close : List ℕ
battery_close = b']' ∷ []

abbrev pub no_battery : List ℕ
no_battery = codes "No battery"

abbrev pub display_wayland : List ℕ
display_wayland = codes "1920x1080 @ 60Hz (Wayland)"

abbrev pub display_x11 : List ℕ
display_x11 = codes "1920x1080 @ 60Hz (X11)"

abbrev pub tty : List ℕ
tty = codes "TTY"
