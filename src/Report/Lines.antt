-- ===== src/Report/Lines.antt =====
-- The lines of the report (src/ascii.c, `display_system_info`). A line is what `snprintf` leaves in
-- 512 bytes.
use hifetch.Common.{
  codes, ℕ, suc, ◌+◌, ◌-◌, Bool, true, false, not, ◌&&◌, ℤ, pos, List, [], ◌∷◌, ◌++◌, Option, none,
  some, if◌then◌else◌, ltb, length, take, replicate, str_eq,
}
use hifetch.Report.Layout.{fast_memset_dashes, get_display_width, get_distro_ascii, widest}
use hifetch.Strings.Commands.{c_string}
use hifetch.Strings.Secure.{File, read_file_fast}
use hifetch.Sysinfo.State.{SystemInfo}
use hifetch.Sysinfo.Texts.{unknown, no_swap}

-- What is read beside the record: a file, through an array with any content, and two variables.
pub record Surroundings : Type 0 where
  pub product_name : File
  pub host_buffer : List ℕ
  pub colorterm : Option (List ℕ)
  pub editor : Option (List ℕ)

-- A line with a label in blue.
abbrev blue : List ℕ → List ℕ
blue text = codes "\u{1b}[1;34m" ++ text ++ codes "\u{1b}[0m"

abbrev pub line : List ℕ → List ℕ → List ℕ
line label text = take 511 (blue label ++ b' ' ∷ text)

abbrev text_or : List ℕ → Option (List ℕ) → List ℕ
text_or default none = default
text_or default (some text) = text

unfoldable pub get_host_info : File → List ℕ → List ℕ
get_host_info product_name buffer =
    let (read, after) = read_file_fast product_name buffer in
    take 255 (if read then c_string after else codes "Unknown Host")

-- `MAX_STR` bytes of name at most reach the line of dashes.
unfoldable pub separator : ℕ → List ℕ
separator name_len = fast_memset_dashes (if ltb name_len 127 then name_len else 127)

abbrev pub known : List ℕ → Bool
known text = not (str_eq text unknown)

abbrev pub when : Bool → List ℕ → List (List ℕ)
when true text = text ∷ []
when false text = []

abbrev both : List ℕ → List ℕ
both text = text ++ (codes " [Qt], " ++ (text ++ codes " [GTK2/3/4]"))

unfoldable pub gpu_lines : (ℤ → List ℕ) → ℕ → List (List ℕ) → List (List ℕ)
gpu_lines dec i [] = []
gpu_lines dec i (gpu ∷ gpus) =
    line (codes "GPU " ++ (dec (pos (i + 1)) ++ codes ":")) gpu ∷ gpu_lines dec (suc i) gpus

-- A row of the logo with the spaces after it.
abbrev pub padded : ℕ → List ℕ → List ℕ
padded max_ascii_width row = row ++ replicate (max_ascii_width - get_display_width row) b' '

-- The loop over the rows of the logo and the lines beside them.
unfoldable pub print_rows : ℕ → List (List ℕ) → List (List ℕ) → List (List ℕ)
print_rows max_ascii_width [] [] = []
print_rows max_ascii_width (row ∷ rows) [] = row ∷ print_rows max_ascii_width rows []
print_rows max_ascii_width [] (info ∷ infos) =
    (replicate max_ascii_width b' ' ++ info) ∷ print_rows max_ascii_width [] infos
print_rows max_ascii_width (row ∷ rows) (info ∷ infos) =
    (padded max_ascii_width row ++ info) ∷ print_rows max_ascii_width rows infos

-- `dec` is `%d`.
module _ {D : Type 0} (dec : ℤ → List ℕ) where
  unfoldable pub head_lines : Surroundings → SystemInfo D → List (List ℕ)
  head_lines around info =
      []
      ∷ take 511 (blue info.username ++ b'@' ∷ blue info.hostname)
      ∷ take 511 (blue (separator (length info.username + length info.hostname + 1)))
      ∷ line (codes "OS:") info.os_name
      ∷ line (codes "Host:") (get_host_info around.product_name around.host_buffer)
      ∷ line (codes "Kernel:") info.kernel
      ∷ line (codes "Uptime:") info.uptime
      ∷ line (codes "Packages:") info.packages
      ∷ line (codes "Shell:") info.shell
      ∷ line (codes "Display:") info.display
      ∷ line (codes "DE:") info.de_version
      ∷ line (codes "WM:") info.wm
      ∷ []

  unfoldable pub theme_line : SystemInfo D → List (List ℕ)
  theme_line info =
      if known info.gtk_theme && known info.qt_theme
      then line (codes "Theme:") (
          info.qt_theme
          ++ (codes " [Qt], "
              ++ (info.gtk_theme ++ (codes " [GTK2], " ++ (info.gtk_theme ++ codes " [GTK3]")))))
        ∷ []
      else when (known info.gtk_theme)
          (line (codes "Theme:") (info.gtk_theme ++ codes " [GTK2/3/4]"))

  -- The lines of the themes, each only where it is known.
  unfoldable pub theme_lines : SystemInfo D → List (List ℕ)
  theme_lines info =
      when (known info.wm_theme) (line (codes "WM Theme:") info.wm_theme)
      ++ (theme_line info
          ++ (when (known info.icon_theme) (line (codes "Icons:") (both info.icon_theme))
              ++ (when (known info.font) (line (codes "Font:") (both info.font))
                  ++ when (known info.cursor_theme) (line (codes "Cursor:") info.cursor_theme))))

  unfoldable pub tail_lines : Surroundings → SystemInfo D → List (List ℕ)
  tail_lines around info =
      line (codes "Disk:") info.disk
      ∷ line (codes "Local IP:") info.local_ip
      ∷ line (codes "Battery:") info.battery
      ∷ line (codes "Locale:") info.locale
      ∷ line (codes "Colors:") (text_or (codes "256") around.colorterm)
      ∷ line (codes "Editor:") (text_or (codes "vim") around.editor)
      ∷ []
      ∷ []
      ∷ []

  -- All lines: `info_count` is their number.
  unfoldable pub formatted_info : Surroundings → SystemInfo D → List (List ℕ)
  formatted_info around info =
      head_lines around info
      ++ (theme_lines info
          ++ (line (codes "Terminal:") info.terminal
              ∷ line (codes "CPU:") info.cpu_model
              ∷ (gpu_lines dec 0 info.gpu
                  ++ (line (codes "Memory:") info.memory
                      ∷ (when (not (str_eq info.swap no_swap)) (line (codes "Swap:") info.swap)
                          ++ tail_lines around info)))))

  -- The lines that are printed; `none` where a line is written past the 32 of the array.
  unfoldable pub display_system_info : Surroundings → SystemInfo D → Option (List (List ℕ))
  display_system_info around info =
      let infos = formatted_info around info in
      let logo = get_distro_ascii info.os_name in
      if ltb 32 (length infos) then none else some (print_rows (widest logo 0 + 2) logo infos)
