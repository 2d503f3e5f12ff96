-- ===== src/Report/Columns.antt =====
-- The columns of the report (src/ascii.c, `display_system_info`).
use hifetch.Common.{
  codes, ℕ, zero, suc, ◌+◌, ◌-◌, ◌≤◌, ◌≡◌, refl, ap, inl, inr, Bool, true, false, not, ◌&&◌, ℤ,
  List, [], ◌∷◌, ◌++◌, ◌==◌, if◌then◌else◌, ltb, replicate, length, arith, length-append, str_eq,
  Bool-cases, Leaves,
}
use hifetch.Report.Layout.{get_distro_ascii, width_from, get_display_width, widest}
use hifetch.Report.Lines.{
  Surroundings, print_rows, padded, head_lines, theme_lines, gpu_lines, tail_lines, formatted_info,
  display_system_info, when, line,
}
use hifetch.Report.DebianLogos.{
  ubuntu_ascii, debian_ascii, kali_ascii, elementary_ascii, popos_ascii, mint_ascii,
}
use hifetch.Report.Logos.{
  arch_ascii, fedora_ascii, centos_ascii, manjaro_ascii, opensuse_ascii, linux_ascii,
}
use hifetch.Sysinfo.State.{SystemInfo}
use hifetch.Sysinfo.Texts.{no_swap}

-- Every line is a line of the second list, after bytes that take `width` columns.
unfoldable pub IsAligned : ℕ → List (List ℕ) → List (List ℕ) → Type 0
IsAligned width [] [] = Unit {0}
IsAligned width [] (_ ∷ _) = ⊥
IsAligned width (_ ∷ _) [] = ⊥
IsAligned width (line ∷ lines) (info ∷ infos) =
    ((before : List ℕ) × (line ≡ before ++ info) × (get_display_width before ≡ width))
    × IsAligned width lines infos

-- An escape sequence that is begun is ended.
abbrev ends_from : Bool → List ℕ → Bool
ends_from in_escape [] = not in_escape
ends_from in_escape (c ∷ str) =
    ends_from (if c == 27 then true else in_escape && not (c == b'm')) str

abbrev all_end : List (List ℕ) → Bool
all_end [] = true
all_end (row ∷ rows) = ends_from false row && all_end rows

-- The rows end outside of escape sequences, and they are 19.
record IsLogo (rows : List (List ℕ)) : Type 0 where
  end : all_end rows ≡ true
  count : length rows ≡ 19

either :
    (P : List (List ℕ) → Type 0) (b : Bool) (x y : List (List ℕ))
    → P x
    → P y
    → P (if b then x else y)
either P true x y px py = px
either P false x y px py = py

get_distro_ascii-IsLogo : (name : List ℕ) → IsLogo (get_distro_ascii name)
unfolding get_distro_ascii
get_distro_ascii-IsLogo name =
    let by : (b : Bool) (x y : List (List ℕ)) → IsLogo x → IsLogo y → IsLogo (if b then x else y) =
      either IsLogo in
    by _ arch_ascii _ (record { end = refl; count = refl })
      (by _ ubuntu_ascii _ (record { end = refl; count = refl })
        (by _ debian_ascii _ (record { end = refl; count = refl })
          (by _ fedora_ascii _ (record { end = refl; count = refl })
            (by _ manjaro_ascii _ (record { end = refl; count = refl })
              (by _ opensuse_ascii _ (record { end = refl; count = refl })
                (by _ centos_ascii _ (record { end = refl; count = refl })
                  (by _ kali_ascii _ (record { end = refl; count = refl })
                    (by _ elementary_ascii _ (record { end = refl; count = refl })
                      (by _ popos_ascii _ (record { end = refl; count = refl })
                        (by _ mint_ascii linux_ascii (record { end = refl; count = refl })
                          (record { end = refl; count = refl })))))))))))

width_from-replicate : (n : ℕ) → width_from false (replicate n b' ') ≡ n
unfolding width_from
width_from-replicate zero = refl
width_from-replicate (suc n) = omega (arith, width_from-replicate n)

width_from-append :
    (in_escape : Bool) (row : List ℕ) (n : ℕ)
    → ends_from in_escape row ≡ true
    → width_from in_escape (row ++ replicate n b' ') ≡ width_from in_escape row + n
unfolding width_from
width_from-append true [] n h = ground (arith, h)
width_from-append false [] n h = omega (arith, width_from-replicate n)
width_from-append in_escape (c ∷ row) n h =
    let after = if c == 27 then true else in_escape && not (c == b'm') in
    omega (arith, width_from-append after row n h)

widest-least : (rows : List (List ℕ)) (m : ℕ) → m ≤ widest rows m
unfolding widest
widest-least [] m = omega arith
widest-least (row ∷ rows) m =
    let width = get_display_width row in
    elim (Bool-cases (ltb m width)) [
      | inl wider ↦ rw wider (ground (arith, wider, widest-least rows width))
      | inr kept ↦ rw kept (widest-least rows m)
    ]

widest-row :
    (row : List ℕ) (rows : List (List ℕ)) (m : ℕ) → get_display_width row ≤ widest (row ∷ rows) m
unfolding widest
widest-row row rows m =
    let width = get_display_width row in
    elim (Bool-cases (ltb m width)) [
      | inl wider ↦ rw wider (widest-least rows width)
      | inr kept ↦ rw kept (ground (arith, kept, widest-least rows m))
    ]

-- Every row is at most `width` columns wide.
abbrev AllWithin : ℕ → List (List ℕ) → Type 0
AllWithin width [] = Unit {0}
AllWithin width (row ∷ rows) = (get_display_width row ≤ width) × AllWithin width rows

widest-AllWithin : (rows : List (List ℕ)) (m : ℕ) → AllWithin (widest rows m) rows
unfolding widest
widest-AllWithin [] m = tt
widest-AllWithin (row ∷ rows) m =
    let width = get_display_width row in
    (widest-row row rows m, widest-AllWithin rows (if ltb m width then width else m))

wider : (rows : List (List ℕ)) (m n : ℕ) → m ≤ n → AllWithin m rows → AllWithin n rows
wider [] m n h within = tt
wider (row ∷ rows) m n h (one, within) = (omega (arith, h, one), wider rows m n h within)

replicate-wide : (n : ℕ) → get_display_width (replicate n b' ') ≡ n
unfolding get_display_width
replicate-wide n = width_from-replicate n

padded-wide :
    (width : ℕ) (row : List ℕ)
    → ends_from false row ≡ true
    → get_display_width row ≤ width
    → get_display_width (padded width row) ≡ width
unfolding get_display_width
padded-wide width row ended within =
    omega (arith, within, width_from-append false row (width - width_from false row) ended)

print_rows-IsAligned :
    (width : ℕ) (rows infos : List (List ℕ))
    → all_end rows ≡ true
    → AllWithin width rows
    → length rows ≤ length infos
    → IsAligned width (print_rows width rows infos) infos
unfolding print_rows IsAligned
print_rows-IsAligned width [] [] ended within enough = tt
print_rows-IsAligned width (row ∷ rows) [] ended within enough = absurd (omega arith)
print_rows-IsAligned width [] (info ∷ infos) ended within enough = (
  (replicate width b' ', refl, replicate-wide width),
  print_rows-IsAligned width [] infos refl tt (omega arith),
)
print_rows-IsAligned width (row ∷ rows) (info ∷ infos) ended (one, within) enough = (
  (padded width row, refl, padded-wide width row (ground (arith, ended)) one),
  print_rows-IsAligned width rows infos (ground (arith, ended)) within (omega (arith, enough)),
)

parts-length :
    {A : Type 0} (a b c d e : List A) (x y z : A)
    → length (a ++ (b ++ (x ∷ y ∷ (c ++ (z ∷ (d ++ e))))))
      ≡ length a + length b + length c + length d + length e + 3
parts-length a b c d e x y z = omega (
  arith,
  length-append a (b ++ (x ∷ y ∷ (c ++ (z ∷ (d ++ e))))),
  length-append b (x ∷ y ∷ (c ++ (z ∷ (d ++ e)))),
  length-append c (z ∷ (d ++ e)),
  length-append d e,
)

gpu_lines-length :
    (dec : ℤ → List ℕ) (i : ℕ) (gpus : List (List ℕ)) → length (gpu_lines dec i gpus) ≡ length gpus
unfolding gpu_lines
gpu_lines-length dec i [] = refl
gpu_lines-length dec i (gpu ∷ gpus) = ap suc (gpu_lines-length dec (suc i) gpus)

when-length : (b : Bool) (text : List ℕ) → length (when b text) ≤ 1
when-length true text = omega arith
when-length false text = omega arith

module _ {D : Type 0} (dec : ℤ → List ℕ) where
  head_lines-length :
      (around : Surroundings) (info : SystemInfo D) → length (head_lines dec around info) ≡ 12
  unfolding head_lines
  head_lines-length around info = refl

  tail_lines-length :
      (around : Surroundings) (info : SystemInfo D) → length (tail_lines dec around info) ≡ 8
  unfolding tail_lines
  tail_lines-length around info = refl

  -- Twenty-three or twenty-four lines, and one for each theme that is known and for each card.
  pub formatted_info-length :
      (around : Surroundings) (info : SystemInfo D)
      → let count = length (formatted_info dec around info) in
        let others = length (theme_lines dec info) + length info.gpu in
        (23 + others ≤ count) × (count ≤ 24 + others)
  unfolding formatted_info
  formatted_info-length around info =
      let on = not (str_eq info.swap no_swap) in
      let swap = line (codes "Swap:") info.swap in
      let total =
        parts-length (head_lines dec around info) (theme_lines dec info) (gpu_lines dec 0 info.gpu)
          (when on swap) (tail_lines dec around info) (line (codes "Terminal:") info.terminal)
          (line (codes "CPU:") info.cpu_model) (line (codes "Memory:") info.memory) in
      let head = head_lines-length around info in
      let tail = tail_lines-length around info in
      let cards = gpu_lines-length dec 0 info.gpu in
      let one = when-length on swap in
      (omega (arith, total, head, tail, cards, one), omega (arith, total, head, tail, cards, one))

  -- Where the lines are at most 32, they are printed in their order, each beside a row of the logo or
  -- of blanks, and all begin at the same column, two after the widest row.
  pub display_system_info-IsAligned :
      (around : Surroundings) (info : SystemInfo D)
      → length (formatted_info dec around info) ≤ 32
      → Leaves (display_system_info dec around info) (λ lines.
        IsAligned
          (widest (get_distro_ascii info.os_name) 0 + 2)
          lines
          (formatted_info dec around info))
  unfolding display_system_info Leaves
  display_system_info-IsAligned around info fits =
      let logo = get_distro_ascii info.os_name in
      let few : ltb 32 (length (formatted_info dec around info)) ≡ false = ground (arith, fits) in
      let drawn = get_distro_ascii-IsLogo info.os_name in
      rw few (
        print_rows-IsAligned (widest logo 0 + 2) logo (formatted_info dec around info) drawn.end
          (wider logo (widest logo 0) (widest logo 0 + 2) (omega arith) (widest-AllWithin logo 0))
          (omega (arith, drawn.count, formatted_info-length around info)))
