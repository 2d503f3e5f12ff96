-- ===== src/Strings/Search.antt =====
-- What the searches for substrings find (src/utils.c, `get_string_between`; src/security.c,
-- `is_safe_path`).
use hifetch.Common.{
  codes, take_front, ℕ, ◌-◌, ◌≤◌, ◌≡◌, ◌≢◌, refl, sym, ap, subst, ◌∙◌, ◌⊎◌, length-take, take_all,
  inl, inr, true, false, List, [], ◌∷◌, ◌++◌, some, arith, leb, length, take, drop, Bool-cases,
  Option-cases, strstr, starts_with, length-append,
}
use hifetch.Strings.{copy_between, get_string_between, has, is_safe_path}

starts_with_lem :
    (text word : List ℕ) → starts_with text word ≡ true → text ≡ word ++ drop (length word) text
unfolding starts_with
starts_with_lem text [] h = refl
starts_with_lem [] (d ∷ word) h = ground arith
starts_with_lem (c ∷ text) (d ∷ word) h =
    let same : c ≡ d = ground (arith, h) in
    let rest : starts_with text word ≡ true = ground (arith, h) in
    rw same (ap (λ r. d ∷ r) (starts_with_lem text word rest))

strstr_lem :
    (text word r : List ℕ)
    → strstr text word ≡ some r
    → (front : List ℕ) × (text ≡ front ++ r) × (starts_with r word ≡ true)
unfolding strstr
strstr_lem [] word r h = elim (Bool-cases (starts_with [] word)) [
  | inl e ↦ ([], ground arith, subst (λ x. starts_with x word ≡ true) (ground arith) e)
  | inr e ↦ ground arith
]
strstr_lem (c ∷ text) word r h = elim (Bool-cases (starts_with (c ∷ text) word)) [
  | inl e ↦ ([], ground arith, subst (λ x. starts_with x word ≡ true) (ground arith) e)
  | inr e ↦
      let (front, cut, found) = strstr_lem text word r (ground arith) in
      (c ∷ front, ap (λ x. c ∷ x) cut, found)
]

starts_with-append : (word back : List ℕ) → starts_with (word ++ back) word ≡ true
unfolding starts_with
starts_with-append [] back = refl
starts_with-append (c ∷ word) back = ground (arith, starts_with-append word back)

has_inside : (front word back : List ℕ) → has (front ++ (word ++ back)) word ≡ true
unfolding strstr starts_with
has_inside [] [] [] = refl
has_inside [] [] (c ∷ back) = refl
has_inside [] (c ∷ word) back = rw (starts_with-append (c ∷ word) back) refl
has_inside (c ∷ front) word back =
    elim (Bool-cases (starts_with (c ∷ front ++ (word ++ back)) word)) [
      | inl e ↦ rw e refl
      | inr e ↦ rw e (has_inside front word back)
    ]

drop-length : (a b : List ℕ) → drop (length a) (a ++ b) ≡ b
drop-length [] b = refl
drop-length (c ∷ a) b = drop-length a b

copy_between_lem : (s mid e : List ℕ) → s ≡ mid ++ e → copy_between s e ≡ take 255 mid
unfolding copy_between
copy_between_lem s mid e cut =
    let len : length s - length e ≡ length mid =
      omega (arith, ap length cut, length-append mid e) in
    elim (Bool-cases (leb 256 (length mid))) [
      | inl long ↦ rw (len, long) (ap (take 255) cut ∙ take_front 255 mid e (ground (arith, long)))
      | inr short ↦
          rw (len, short)
            (ap (take (length mid)) cut
              ∙ take_front (length mid) mid e (omega arith)
              ∙ take_all (length mid) mid (omega arith)
              ∙ sym (take_all 255 mid (ground (arith, short))))
    ]

between_marks :
    (src start end : List ℕ)
    → let dest = get_string_between src start end in
      (dest ≡ [])
      ⊎ ((front : List ℕ) × (mid : List ℕ) × (back : List ℕ) × (src
            ≡ front ++ (start ++ (mid ++ (end ++ back))))
          × (dest ≡ take 255 mid))
unfolding get_string_between
between_marks src start end = elim (Option-cases (strstr src start)) [
  | inl no_start ↦ inl (rw (no_start, get_string_between) refl)
  | inr (found, e) ↦
      let (front, cut, begins) = strstr_lem src start found e in
      let s = drop (length start) found in
      elim (Option-cases (strstr s end)) [
        | inl no_end ↦ inl (rw (e, no_end, get_string_between) refl)
        | inr (rest, e') ↦
            let (mid, cut', ends) = strstr_lem s end rest e' in
            let text : found ≡ start ++ (mid ++ (end ++ drop (length end) rest)) =
              starts_with_lem found start begins
              ∙ ap (λ r. start ++ r) (cut' ∙ ap (λ r. mid ++ r) (starts_with_lem rest end ends)) in
            inr (
              front,
              mid,
              drop (length end) rest,
              cut ∙ ap (λ r. front ++ r) text,
              rw (e, e', get_string_between) (copy_between_lem s mid rest cut'),
            )
      ]
]

-- `get_string_between` writes at most 255 bytes: nothing, or the first 255 bytes of a text that
-- stands in the source between the start mark and the end mark.
pub get_string_between-marks :
    (src start end : List ℕ)
    → let dest = get_string_between src start end in
      (length dest ≤ 255)
      × ((dest ≡ [])
          ⊎ ((front : List ℕ) × (mid : List ℕ) × (back : List ℕ) × (src
                ≡ front ++ (start ++ (mid ++ (end ++ back))))
              × (dest ≡ take 255 mid)))
get_string_between-marks src start end = elim (between_marks src start end) [
  | inl empty ↦ (omega (arith, ap length empty), inl empty)
  | inr (front, mid, back, cut, copied) ↦
      (omega (arith, ap length copied, length-take 255 mid), inr (front, mid, back, cut, copied))
]

absent : (path word front back : List ℕ) → has path word ≡ false → path ≢ front ++ (word ++ back)
absent path word front back h e =
    let seen : has path word ≡ true =
      subst (λ p. has p word ≡ true) (sym e) (has_inside front word back) in
    ground (arith, h, seen)

-- A path that `is_safe_path` accepts is not empty, has at most 1024 bytes, and has neither `..` nor
-- `//` nor `/tmp` in it.
pub is_safe_path-rejects :
    (path front back : List ℕ)
    → is_safe_path (some path) ≡ true
    → (1 ≤ length path)
      × (length path ≤ 1024)
      × (path ≢ front ++ (codes ".." ++ back))
      × (path ≢ front ++ (codes "//" ++ back))
      × (path ≢ front ++ (codes "/tmp" ++ back))
unfolding is_safe_path
is_safe_path-rejects path front back h = (
  ground (arith, h),
  ground (arith, h),
  absent path (codes "..") front back (ground (arith, h)),
  absent path (codes "//") front back (ground (arith, h)),
  absent path (codes "/tmp") front back (ground (arith, h)),
)
