-- ===== src/Sysinfo/Tables.antt =====
-- Memory, swap, disk, graphics cards and packages (src/sysinfo.c, `get_swap_info` to
-- `get_packages`).
use hifetch.Common.{
  Real, ℕ, ◌+◌, ◌*◌, ◌/◌, ◌%◌, ◌^◌, Bool, not, ◌&&◌, ◌||◌, ℤ, pos, List, [], ◌∷◌, ◌++◌, Option,
  none, some, ◌==◌, if◌then◌else◌, ltb, leb, length, take, drop, strstr, starts_with, is_some,
  str_eq, sub64, sub_ℕ, ltb_ℤ,
}
use hifetch.Strings.{trim_string}
use hifetch.Sysinfo.Facts.{bounded, number, strtok_lines}
use hifetch.Sysinfo.State.{SystemInfo, FileSystem, Sources, Formats}
use hifetch.Sysinfo.Texts.{
  unknown, mem_total, mem_available, swap_total, swap_free, mebi_of, gibi_of, gibi_open,
  percent_close, no_swap, disk_open, disk_of, disk_pct, unknown_gpu, intel, nvidia, geforce, amd,
  ati, radeon, integrated, discrete, too_long, dot, dot_dot, pacman, flatpak, snap, hour_sep,
}

abbrev pub max_gpus : ℕ
max_gpus = 8

abbrev pub contains : List ℕ → List ℕ → Bool
contains line word = is_some (strstr line word)

-- The line of a card with what kind it is.
unfoldable pub labelled : List ℕ → List ℕ
labelled line =
    if contains line intel
    then line ++ integrated
    else if contains line nvidia || contains line geforce
    then line ++ discrete
    else if contains line amd || contains line ati || contains line radeon
    then line ++ discrete
    else take 255 line

-- The text of one card.
unfoldable pub gpu_text : List ℕ → List ℕ
gpu_text line = let text = labelled line in if leb 256 (length text) then too_long else text

-- The loop over the lines, which stops where the array is full.
unfoldable pub gpu_lines : List (List ℕ) → List (List ℕ) → List (List ℕ)
gpu_lines [] gpus = gpus
gpu_lines (line ∷ lines) gpus =
    let text = trim_string line in
    let next =
      if ltb 0 (length text) && ltb (length text) 236 then gpus ++ gpu_text text ∷ [] else gpus in
    let rest = gpu_lines lines next in if ltb (length gpus) max_gpus then rest else gpus

-- The first `gpu_count` entries. `temp_buffer` has 8192 bytes.
unfoldable pub gpus_of : Option (List ℕ) → List (List ℕ)
gpus_of none = unknown_gpu ∷ []
gpus_of (some all_gpus) =
    let gpus = gpu_lines (strtok_lines (take 8191 all_gpus)) [] in
    if (length all_gpus == 0) || (length gpus == 0) then unknown_gpu ∷ [] else gpus

-- The names of a directory but the two that every directory has.
unfoldable pub count_entries : List (List ℕ) → ℕ
count_entries [] = 0
count_entries (name ∷ names) =
    let count = count_entries names in
    if not (str_eq name dot) && not (str_eq name dot_dot) then count + 1 else count

unfoldable pub count_directory_entries : Option (List (List ℕ)) → ℕ
count_directory_entries none = 0
count_directory_entries (some names) = count_entries names

module _ {D : Type 0} (k : Real D) (f : Formats D) where
  unfoldable pub get_all_gpus : Sources → SystemInfo D → SystemInfo D
  get_all_gpus s info = record info { gpu = gpus_of s.lspci }

  -- `sscanf(line, "<word> %lu kB", &value) == 1`
  unfoldable pub scan_word : List ℕ → List ℕ → Option ℕ
  scan_word word line = if starts_with line word then f.scan_lu (drop (length word) line) else none

  -- The loop over the lines of /proc/meminfo: the last value of the first word before the first line
  -- with the second word, and the value of that line.
  unfoldable pub scan_pair : List ℕ → List ℕ → List (List ℕ) → ℕ → ℕ × ℕ
  scan_pair first second [] a = (a, 0)
  scan_pair first second (line ∷ lines) a = elim (scan_word first line) [
    | some value ↦ scan_pair first second lines value
    | none ↦ elim (scan_word second line) [
      | some value ↦ (a, value)
      | none ↦ scan_pair first second lines a
    ]
  ]

  -- `(int)((double)part / whole * 100)` and `kb / 1048576.0`
  abbrev pub percent : ℕ → ℕ → ℤ
  percent part whole = f.truncate (f.mul (f.div (f.of_ℕ part) (f.of_ℕ whole)) (f.of_ℕ 100))

  abbrev pub gigabytes : ℕ → D
  gigabytes kb = f.div (f.of_ℕ kb) (f.of_ℕ 1048576)

  -- What the function leaves in the field, which it does not write if the file cannot be read.
  unfoldable pub swap_of : Option (List ℕ) → List ℕ → List ℕ
  swap_of none field = field
  swap_of (some buffer) field =
      let (total, free) = scan_pair swap_total swap_free (strtok_lines buffer) 0 in
      let used = sub64 total free in
      if ltb 0 total
      then bounded (
          f.fixed (f.mul (gigabytes used) (f.of_ℕ 1024))
          ++ mebi_of
          ++ f.fixed (gigabytes total)
          ++ gibi_open
          ++ f.dec (percent used total)
          ++ percent_close)
      else no_swap

  unfoldable pub get_swap_info : Sources → SystemInfo D → SystemInfo D
  get_swap_info s info = record info { swap = swap_of s.swap_meminfo info.swap }

  unfoldable pub memory_of : Option (List ℕ) → List ℕ
  memory_of none = unknown
  memory_of (some buffer) =
      let (total, available) = scan_pair mem_total mem_available (strtok_lines buffer) 0 in
      let used = sub64 total available in
      if ltb 0 total && ltb 0 available
      then bounded (
          f.fixed (gigabytes used)
          ++ gibi_of
          ++ f.fixed (gigabytes total)
          ++ gibi_open
          ++ f.dec (percent used total)
          ++ percent_close)
      else unknown

  unfoldable pub get_memory_info : Sources → SystemInfo D → SystemInfo D
  get_memory_info s info = get_swap_info s (record info { memory = memory_of s.meminfo })

  unfoldable pub disk_of_root : Option FileSystem → List ℕ
  disk_of_root none = unknown
  disk_of_root (some stat) =
      let total = stat.blocks * stat.frsize % 2 ^ 64 / (1024 * 1024 * 1024) in
      let free = stat.bavail * stat.frsize % 2 ^ 64 / (1024 * 1024 * 1024) in
      let used = sub64 total free in
      bounded (
        disk_open
        ++ number k f used
        ++ disk_of
        ++ number k f total
        ++ disk_pct
        ++ f.dec (if ltb 0 total then percent used total else pos 0)
        ++ percent_close)

  unfoldable pub get_disk_info : Sources → SystemInfo D → SystemInfo D
  get_disk_info s info = record info { disk = disk_of_root s.root }

  -- One source of packages: nothing where it has none, a separator where others came before.
  unfoldable pub add_packages : ℤ → List ℕ → List ℕ → List ℕ
  add_packages count source result =
      if ltb_ℤ (pos 0) count
      then bounded
          (result ++ (if ltb 0 (length result) then hour_sep else []) ++ f.dec count ++ source)
      else result

  -- A directory of the user is read only where `USER` is set, and two entries of /snap do not count.
  unfoldable pub packages_of : Sources → List ℕ
  packages_of s =
      let pacman_count = count_directory_entries s.pacman_local in
      let user_count = if is_some s.user then count_directory_entries s.user_flatpak_app else 0 in
      let flatpak_count = count_directory_entries s.flatpak_app + user_count in
      let system =
        add_packages (pos flatpak_count) flatpak (add_packages (pos pacman_count) pacman []) in
      let result =
        if is_some s.snap_dir
        then add_packages (sub_ℕ (count_directory_entries s.snap_dir) 2) snap system
        else system in
      if ltb 0 (length result) then result else unknown

  unfoldable pub get_packages : Sources → SystemInfo D → SystemInfo D
  get_packages s info = record info { packages = packages_of s }
