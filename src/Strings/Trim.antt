-- ===== src/Strings/Trim.antt =====
-- What `trim_string` leaves (src/utils.c).
use hifetch.Common.{
  ℕ, zero, suc, ◌≤◌, ◌<◌, ◌≡◌, refl, sym, ap, ◌∙◌, inl, inr, Bool, true, false, ◌&&◌, List, [], ◌∷◌,
  ◌++◌, arith, ◌==◌, get_or, length, take, Bool-cases, take_all,
}
use hifetch.Strings.{is_blank, trim_end, skip_blanks, trim_string}
use mathlib.Core.List.{append-nil, append_assoc}

unfoldable pub all_blank : List ℕ → Bool
all_blank [] = true
all_blank (c ∷ str) = is_blank c && all_blank str

unfoldable pub starts_blank : List ℕ → Bool
starts_blank [] = false
starts_blank (c ∷ str) = is_blank c

unfoldable pub ends_blank : List ℕ → Bool
ends_blank [] = false
ends_blank (c ∷ []) = is_blank c
ends_blank (c ∷ d ∷ str) = ends_blank (d ∷ str)

ends_blank-append : (str : List ℕ) (c : ℕ) → ends_blank (str ++ c ∷ []) ≡ is_blank c
unfolding ends_blank
ends_blank-append [] c = refl
ends_blank-append (a ∷ []) c = refl
ends_blank-append (a ∷ b ∷ str) c = ends_blank-append (b ∷ str) c

all_blank-append :
    (str : List ℕ) (c : ℕ)
    → all_blank str ≡ true
    → is_blank c ≡ true
    → all_blank (str ++ c ∷ []) ≡ true
unfolding all_blank
all_blank-append [] c h e = rw e refl
all_blank-append (a ∷ str) c h e = ground (arith, all_blank-append str c)

take_more :
    (str : List ℕ) (n : ℕ) → n < length str → take (suc n) str ≡ take n str ++ get_or str n 0 ∷ []
take_more [] n h = absurd (omega arith)
take_more (c ∷ str) zero h = refl
take_more (c ∷ str) (suc n) h = ap (λ r. c ∷ r) (take_more str n (omega arith))

trim_end_lem :
    (n : ℕ) (str : List ℕ)
    → n ≤ length str
    → (back : List ℕ) × (take n str ≡ take (trim_end n str) str ++ back)
      × (all_blank back ≡ true)
      × (ends_blank (take (trim_end n str) str) ≡ false)
unfolding trim_end all_blank ends_blank
trim_end_lem zero str h = ([], refl, refl, refl)
trim_end_lem (suc n) str h =
    let (back, cut, blank, clean) = trim_end_lem n str (omega arith) in
    let more = take_more str n (omega arith) in
    elim (Bool-cases (is_blank (get_or str n 0))) [
      | inl b ↦ rw b (
        back ++ get_or str n 0 ∷ [],
        more ∙ ap (λ r. r ++ get_or str n 0 ∷ []) cut ∙ append_assoc _ back (get_or str n 0 ∷ []),
        all_blank-append back (get_or str n 0) blank b,
        clean,
      )
      | inr b ↦ rw b (
        [],
        sym (append-nil (take (suc n) str)),
        refl,
        ap ends_blank more ∙ ends_blank-append (take n str) (get_or str n 0) ∙ b,
      )
    ]

skip_blanks_lem :
    (str : List ℕ)
    → ends_blank str ≡ false
    → (front : List ℕ) × (str ≡ front ++ skip_blanks str)
      × (all_blank front ≡ true)
      × (starts_blank (skip_blanks str) ≡ false)
      × (ends_blank (skip_blanks str) ≡ false)
unfolding skip_blanks all_blank starts_blank ends_blank
skip_blanks_lem [] h = ([], refl, refl, refl, refl)
skip_blanks_lem (c ∷ []) h = rw h ([], refl, refl, h, h)
skip_blanks_lem (c ∷ d ∷ str) h = elim (Bool-cases (is_blank c)) [
  | inl b ↦
      let (front, cut, blank, clean, kept) = skip_blanks_lem (d ∷ str) h in
      rw b (c ∷ front, ap (λ r. c ∷ r) cut, rw b blank, clean, kept)
  | inr b ↦ rw b ([], refl, refl, b, h)
]

-- A string is what `trim_string` leaves of it between two runs of blanks (spaces, tabs, line feeds,
-- carriage returns), and what is left neither starts nor ends with a blank.
pub trim_string-cuts :
    (str : List ℕ)
    → (front : List ℕ) × (back : List ℕ) × (str ≡ front ++ trim_string str ++ back)
      × (all_blank front ≡ true)
      × (all_blank back ≡ true)
      × (starts_blank (trim_string str) ≡ false)
      × (ends_blank (trim_string str) ≡ false)
unfolding trim_string all_blank starts_blank ends_blank
trim_string-cuts [] = ([], [], refl, refl, refl, refl, refl)
trim_string-cuts (c ∷ str) =
    let long : (suc (length str) == 0) ≡ false = ground arith in
    let (back, cut, blank, clean) = trim_end_lem (length (c ∷ str)) (c ∷ str) (omega arith) in
    let (front, cut', blank', clean', kept) =
      skip_blanks_lem (take (trim_end (length (c ∷ str)) (c ∷ str)) (c ∷ str)) clean in
    rw long (
      front,
      back,
      sym (take_all (length (c ∷ str)) (c ∷ str) (omega arith)) ∙ cut ∙ ap (λ r. r ++ back) cut',
      blank',
      blank,
      clean',
      kept,
    )
