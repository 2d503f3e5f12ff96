-- ===== src/Sysinfo/Facts.antt =====
-- The getters of single facts, the processor included (src/sysinfo.c, `get_hostname` to
-- `get_cpu_info`).
use hifetch.Common.{
  Real, ℕ, ◌/◌, ◌%◌, ℤ, pos, List, [], ◌∷◌, ◌++◌, Option, none, some, ◌==◌, if◌then◌else◌, ltb, leb,
  length, take, drop, strstr, is_some,
}
use hifetch.Strings.{get_string_between}
use hifetch.Sysinfo.State.{SystemInfo, Sources, Formats}
use hifetch.Sysinfo.Texts.{
  unknown_host, unknown, linux, pretty_name, quote_mark, day, hour_sep, hour, minute, plural,
  short_hours, short_minutes, model_name, unknown_cpu, cores_open, cores_close, at_sign, gigahertz,
}

-- `strncpy` into an array of `MAX_STR` bytes, with the terminator, and `snprintf` into one.
abbrev pub bounded : List ℕ → List ℕ
bounded text = take 255 text

abbrev pub or_text : List ℕ → Option (List ℕ) → List ℕ
or_text default none = default
or_text default (some text) = text

-- The text after the first byte of a kind (`strchr`), and after the last one (`strrchr`).
unfoldable pub after_first : ℕ → List ℕ → Option (List ℕ)
after_first c [] = none
after_first c (d ∷ text) = let rest = after_first c text in if d == c then some text else rest

unfoldable pub after_last : ℕ → List ℕ → Option (List ℕ)
after_last c [] = none
after_last c (d ∷ text) = elim (after_last c text) [
  | some rest ↦ some rest
  | none ↦ if d == c then some text else none
]

-- The pieces between the ends of line, and those that `strtok` gives: the ones that are not empty.
unfoldable pub split_lines : List ℕ → List ℕ × List (List ℕ)
split_lines [] = ([], [])
split_lines (c ∷ text) =
    let (piece, pieces) = split_lines text in
    if c == 10 then ([], piece ∷ pieces) else (c ∷ piece, pieces)

unfoldable pub drop_empty : List (List ℕ) → List (List ℕ)
drop_empty [] = []
drop_empty ([] ∷ pieces) = drop_empty pieces
drop_empty ((c ∷ piece) ∷ pieces) = (c ∷ piece) ∷ drop_empty pieces

unfoldable pub strtok_lines : List ℕ → List (List ℕ)
strtok_lines text = let (piece, pieces) = split_lines text in drop_empty (piece ∷ pieces)

-- The three parts of an uptime.
abbrev pub uptime_days : ℕ → ℕ
uptime_days uptime = uptime / 86400

abbrev pub uptime_hours : ℕ → ℕ
uptime_hours uptime = uptime % 86400 / 3600

abbrev pub uptime_minutes : ℕ → ℕ
uptime_minutes uptime = uptime % 3600 / 60

module _ {D : Type 0} (k : Real D) (f : Formats D) where
  unfoldable pub get_hostname : Sources → SystemInfo D → SystemInfo D
  get_hostname s info = record info { hostname = bounded (or_text unknown_host s.gethostname) }

  unfoldable pub get_username : Sources → SystemInfo D → SystemInfo D
  get_username s info =
      let user = or_text [] s.user in
      record info { username = if ltb 0 (length user) then bounded user else unknown_host }

  unfoldable pub os_name_of : Option (List ℕ) → List ℕ
  os_name_of none = linux
  os_name_of (some buffer) =
      let temp = get_string_between buffer pretty_name quote_mark in
      if ltb 0 (length temp) then bounded temp else linux

  unfoldable pub get_os_info : Sources → SystemInfo D → SystemInfo D
  get_os_info s info = record info { os_name = os_name_of s.os_release }

  unfoldable pub kernel_of : Option (List ℕ × List ℕ) → List ℕ
  kernel_of none = unknown
  kernel_of (some (sysname, release)) =
      let text = sysname ++ b' ' ∷ release in if leb 256 (length text) then unknown else text

  unfoldable pub get_kernel : Sources → SystemInfo D → SystemInfo D
  get_kernel s info = record info { kernel = kernel_of s.uname }

  abbrev pub number : ℕ → List ℕ
  number n = f.dec (pos n)

  -- A number with its unit.
  abbrev pub counted : ℕ → List ℕ → List ℕ
  counted n unit = number n ++ unit ++ (if n == 1 then [] else plural)

  -- `days > 0` chooses the long form.
  unfoldable pub uptime_text : ℕ → ℕ → ℕ → List ℕ
  uptime_text days hours minutes = bounded (
      if ltb 0 days
      then counted days day ++ hour_sep ++ counted hours hour ++ hour_sep ++ counted minutes minute
      else number hours ++ short_hours ++ number minutes ++ short_minutes)

  unfoldable pub get_uptime : Sources → SystemInfo D → SystemInfo D
  get_uptime s info = record info {
    uptime = elim s.sysinfo_uptime [
      | some up ↦ uptime_text (uptime_days up) (uptime_hours up) (uptime_minutes up)
      | none ↦ unknown
    ];
  }

  unfoldable pub shell_of : Option (List ℕ) → List ℕ
  shell_of none = unknown_host
  shell_of (some shell) = or_text shell (after_last b'/' shell)

  unfoldable pub get_shell : Sources → SystemInfo D → SystemInfo D
  get_shell s info = record info { shell = shell_of s.shell_variable }

  -- The value in GHz of the first file that can be read.
  unfoldable pub frequency_of : Option (List ℕ) → Option (List ℕ) → D
  frequency_of (some freq) max_freq = f.div (f.atof freq) (f.of_ℕ 1000000)
  frequency_of none (some max_freq) = f.div (f.atof max_freq) (f.of_ℕ 1000000)
  frequency_of none none = k.zero

  unfoldable pub get_cpu_frequency : Sources → SystemInfo D → SystemInfo D
  get_cpu_frequency s info = record info {
    cpu_freq = frequency_of s.scaling_cur_freq s.cpuinfo_max_freq;
  }

  -- The first line with "model name" and a colon: the text from two bytes after the colon on.
  unfoldable pub cpu_line : List (List ℕ) → List ℕ
  cpu_line [] = []
  cpu_line (line ∷ lines) =
      let rest = cpu_line lines in
      if is_some (strstr line model_name)
      then (elim (after_first b':' line) [ some text ↦ take 224 (drop 1 text) | none ↦ rest ])
      else rest

  unfoldable pub cpu_model_of : Option (List ℕ) → List ℕ
  cpu_model_of none = unknown_cpu
  cpu_model_of (some buffer) =
      let model = cpu_line (strtok_lines buffer) in
      if ltb 0 (length model) then model else unknown_cpu

  unfoldable pub cores_text : ℤ → D → List ℕ
  cores_text cores freq = take 47 (
      if k.less k.zero freq
      then cores_open ++ f.dec cores ++ at_sign ++ f.fixed freq ++ gigahertz
      else cores_open ++ f.dec cores ++ cores_close)

  unfoldable pub get_cpu_info : Sources → SystemInfo D → SystemInfo D
  get_cpu_info s info =
      let timed =
        get_cpu_frequency s
          (record info { cpu_model = cpu_model_of s.cpuinfo; cpu_cores = s.processors }) in
      record timed {
        cpu_model = bounded (timed.cpu_model ++ cores_text s.processors timed.cpu_freq);
      }
