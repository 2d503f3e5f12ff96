-- ===== src/Report/Layout.antt =====
-- The logo of a system, widths on the terminal, and the line of dashes (src/ascii.c,
-- `get_distro_ascii`, `get_display_width` and `fast_memset_dashes`).
use hifetch.Common.{
  codes, ℕ, zero, suc, ◌+◌, ◌/◌, ◌%◌, Bool, true, false, not, ◌&&◌, ◌||◌, List, [], ◌∷◌, ◌++◌, ◌==◌,
  if◌then◌else◌, leb, ltb, replicate, strstr, is_some, take, Option, none, some,
}
use hifetch.Report.DebianLogos.{
  ubuntu_ascii, debian_ascii, kali_ascii, elementary_ascii, popos_ascii, mint_ascii,
}
use hifetch.Report.Logos.{
  arch_ascii, fedora_ascii, centos_ascii, manjaro_ascii, opensuse_ascii, linux_ascii,
}

abbrev names_one : List ℕ → List (List ℕ) → Bool
names_one name [] = false
names_one name (word ∷ words) = is_some (strstr name word) || names_one name words

-- The first logo one of whose words stands in the name.
unfoldable pub get_distro_ascii : List ℕ → List (List ℕ)
get_distro_ascii name =
    if names_one name (codes "Arch" ∷ codes "arch" ∷ [])
    then arch_ascii
    else if names_one name (codes "Ubuntu" ∷ codes "ubuntu" ∷ [])
    then ubuntu_ascii
    else if names_one name (codes "Debian" ∷ codes "debian" ∷ [])
    then debian_ascii
    else if names_one name (codes "Fedora" ∷ codes "fedora" ∷ [])
    then fedora_ascii
    else if names_one name (codes "Manjaro" ∷ codes "manjaro" ∷ [])
    then manjaro_ascii
    else if names_one name (codes "openSUSE" ∷ codes "SUSE" ∷ codes "suse" ∷ [])
    then opensuse_ascii
    else if names_one name (codes "CentOS" ∷ codes "centos" ∷ codes "RHEL" ∷ codes "Red Hat" ∷ [])
    then centos_ascii
    else if names_one name (codes "Kali" ∷ codes "kali" ∷ [])
    then kali_ascii
    else if names_one name (codes "elementary" ∷ codes "Elementary" ∷ [])
    then elementary_ascii
    else if names_one name (codes "Pop" ∷ codes "pop" ∷ [])
    then popos_ascii
    else if names_one name (codes "Mint" ∷ codes "mint" ∷ [])
    then mint_ascii
    else linux_ascii

-- `current_ascii` is a null pointer before the first call.
unfoldable pub set_ascii_for_distro : List ℕ → Option (List (List ℕ)) → Option (List (List ℕ))
set_ascii_for_distro distro_name current_ascii = some (get_distro_ascii distro_name)

-- What is printed, and `current_ascii` afterwards.
unfoldable pub print_ascii_art : Option (List (List ℕ)) → List (List ℕ) × Option (List (List ℕ))
print_ascii_art none = (arch_ascii, some arch_ascii)
print_ascii_art (some rows) = (take 19 rows, some rows)

-- The loop over the bytes: `in_escape` says whether one of an escape sequence was last.
unfoldable pub width_from : Bool → List ℕ → ℕ
width_from in_escape [] = 0
width_from in_escape (c ∷ str) =
    let after = if c == 27 then true else in_escape && not (c == b'm') in
    let counts = not (c == 27) && not in_escape in width_from after str + (if counts then 1 else 0)

unfoldable pub get_display_width : List ℕ → ℕ
get_display_width str = width_from false str

-- Eight dashes at a time, then one at a time.
unfoldable pub dash_words : ℕ → List ℕ
dash_words zero = []
dash_words (suc n) = codes "--------" ++ dash_words n

unfoldable pub fast_memset_dashes : ℕ → List ℕ
fast_memset_dashes len =
    if leb 8 len then dash_words (len / 8) ++ replicate (len % 8) b'-' else replicate len b'-'

-- The widest row of a logo.
unfoldable pub widest : List (List ℕ) → ℕ → ℕ
widest [] max_ascii_width = max_ascii_width
widest (row ∷ rows) max_ascii_width =
    let width = get_display_width row in
    widest rows (if ltb max_ascii_width width then width else max_ascii_width)
