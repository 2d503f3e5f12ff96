-- ===== src/Report/Fits.antt =====
-- The report of a gathered record (src/main.c, `main`; src/ascii.c, `display_system_info`).
use hifetch.Common.{
  codes, Real, ℕ, zero, suc, ◌+◌, ◌*◌, ◌/◌, ◌%◌, ◌≤◌, ◌≡◌, refl, ap, inl, inr, ℤ, str_eq, List, [],
  ◌++◌, leb, replicate, length, arith, ◌∙◌, Bool-cases,
}
use hifetch.Report.Columns.{formatted_info-length}
use hifetch.Report.Layout.{dash_words, fast_memset_dashes}
use hifetch.Report.Lines.{Surroundings, theme_line, theme_lines, formatted_info}
use hifetch.Sysinfo.Desktop.{
  get_desktop_info, get_detailed_theme_info, get_terminal_info, get_network_info, get_battery_info,
  get_display_info, get_locale_info,
}
use hifetch.Sysinfo.Gather.{gather, zeroed}
use hifetch.Sysinfo.Gpus.{get_all_gpus-Fits}
use hifetch.Sysinfo.State.{Sources, Formats}
use hifetch.Sysinfo.Tables.{get_packages, get_disk_info, get_memory_info}
use hifetch.Sysinfo.Facts.{
  get_hostname, get_username, get_os_info, get_kernel, get_uptime, get_shell, get_cpu_info,
}

abbrev dashes : ℕ → List ℕ
dashes n = replicate n b'-'

dash_words-replicate : (n m : ℕ) → dash_words n ++ dashes m ≡ dashes (8 * n + m)
unfolding dash_words
dash_words-replicate zero m = let same : m ≡ 8 * 0 + m = omega arith in ap dashes same
dash_words-replicate (suc n) m =
    let same : suc (suc (suc (suc (suc (suc (suc (suc (8 * n + m)))))))) ≡ 8 * suc n + m =
      omega arith in
    ap (λ r. codes "--------" ++ r) (dash_words-replicate n m) ∙ ap dashes same

-- The line of dashes has as many dashes as are asked for.
pub fast_memset_dashes-replicate : (len : ℕ) → fast_memset_dashes len ≡ replicate len b'-'
unfolding fast_memset_dashes
fast_memset_dashes-replicate len = elim (Bool-cases (leb 8 len)) [
  | inl long ↦
      let same : 8 * (len / 8) + len % 8 ≡ len = omega arith in
      rw long (dash_words-replicate (len / 8) (len % 8) ∙ ap dashes same)
  | inr short ↦ rw short refl
]

module _ {D : Type 0} (k : Real D) (f : Formats D) where
  gathered-themes : (dec : ℤ → List ℕ) (s : Sources) → theme_lines dec (gather k f s) ≡ []
  unfolding gather get_locale_info get_display_info get_battery_info get_network_info
      get_terminal_info get_detailed_theme_info theme_lines theme_line str_eq
  gathered-themes dec s = refl

  gathered-cards : (s : Sources) → length (gather k f s).gpu ≤ 8
  unfolding gather get_locale_info get_display_info get_battery_info get_network_info
      get_terminal_info get_detailed_theme_info get_desktop_info get_packages
  gathered-cards s =
      (get_all_gpus-Fits k f s (
        get_disk_info k f s (
          get_memory_info k f s (
            get_cpu_info k f s (
              get_shell k f s (
                get_uptime k f s (
                  get_kernel k f s (
                    get_os_info k f s
                      (get_username k f s (get_hostname k f s (zeroed k f))))))))))).1

  pub gathered-few :
      (around : Surroundings) (s : Sources)
      → length (formatted_info f.dec around (gather k f s)) ≤ 32
  gathered-few around s =
      let count = formatted_info-length f.dec around (gather k f s) in
      omega (arith, count, gathered-cards s, ap length (gathered-themes f.dec s))
