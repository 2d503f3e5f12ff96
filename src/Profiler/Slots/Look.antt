-- ===== src/Profiler/Slots/Look.antt =====
-- What the search finds before and after such a change (src/profiler.c).
use hifetch.Common.{
  ℕ, suc, ◌<◌, ◌≡◌, refl, ap, ◌∙◌, inl, inr, Bool, true, false, List, [], ◌∷◌, ◌++◌, none, some,
  arith, if◌then◌else◌, ltb, lt→ltb, get_elem?, length, Bool-cases, Option-cases,
}
use hifetch.Profiler.Slots.Table.{find_index, slot, slot_at, first, or_else, upsert}

module _ {A : Type 0} where
  -- A walk over a table with no such entry.
  pub first-upsert-none :
      (p : A → Bool) (room : Bool) (fresh : A) (f : A → A) (xs : List A)
      → first p xs ≡ none
      → p (f fresh) ≡ true
      → first p (upsert p room fresh f xs) ≡ (if room then some (f fresh) else none)
  unfolding first upsert
  first-upsert-none p false fresh f [] absent new = refl
  first-upsert-none p true fresh f [] absent new = rw new refl
  first-upsert-none p room fresh f (x ∷ xs) absent new = elim (Bool-cases (p x)) [
    | inl e ↦ ground arith
    | inr e ↦
        let later : first p xs ≡ none = ground arith in
        rw (e, e) (first-upsert-none p room fresh f xs later new)
  ]

  pub first-upsert_other :
      (p q : A → Bool) (room : Bool) (fresh : A) (f : A → A) (xs : List A)
      → q (f fresh) ≡ false
      → ((x : A) → p x ≡ true → q x ≡ false)
      → ((x : A) → q (f x) ≡ q x)
      → first q (upsert p room fresh f xs) ≡ first q xs
  unfolding first upsert
  first-upsert_other p q false fresh f [] new apart keep = refl
  first-upsert_other p q true fresh f [] new apart keep = rw new refl
  first-upsert_other p q room fresh f (x ∷ xs) new apart keep = elim (Bool-cases (p x)) [
    | inl e ↦ let e' : q (f x) ≡ false = keep x ∙ apart x e in rw (e, e', apart x e) refl
    | inr e ↦ rw e (
        ap (λ r. if q x then some x else r) (first-upsert_other p q room fresh f xs new apart keep))
  ]

  -- A walk over an entry that is there.
  pub first-upsert_found :
      (p : A → Bool) (room : Bool) (fresh : A) (f : A → A) (xs : List A) (x : A)
      → first p xs ≡ some x
      → p (f x) ≡ true
      → first p (upsert p room fresh f xs) ≡ some (f x)
  unfolding first upsert
  first-upsert_found p room fresh f [] x h keep = ground arith
  first-upsert_found p room fresh f (y ∷ xs) x h keep = elim (Bool-cases (p y)) [
    | inl e ↦ let same : y ≡ x = ground arith in rw (e, same, keep) refl
    | inr e ↦
        let later : first p xs ≡ some x = ground arith in
        rw (e, e) (first-upsert_found p room fresh f xs x later keep)
  ]

  pub slot_given :
      (p : A → Bool) (max : ℕ) (fresh : A) (xs : List A)
      → length xs < max
      → (i : ℕ) × ((slot p max fresh xs).0 ≡ some i)
  unfolding slot
  slot_given p max fresh xs h = elim (Option-cases (find_index p xs)) [
    | inr (i, e) ↦ (i, rw (e, slot) refl)
    | inl e ↦
        let room : ltb (length xs) max ≡ true = lt→ltb (length xs) max h in
        (length xs, rw (e, slot, room) refl)
  ]

  pub find_index-first :
      (p : A → Bool) (xs : List A) (x : A)
      → first p xs ≡ some x
      → (i : ℕ) × (find_index p xs ≡ some i) × (get_elem? xs i ≡ some x)
  unfolding find_index first
  find_index-first p [] x h = ground arith
  find_index-first p (y ∷ xs) x h = elim (Bool-cases (p y)) [
    | inl e ↦ let same : y ≡ x = ground arith in (0, rw e refl, ap some same)
    | inr e ↦
        let later : first p xs ≡ some x = ground arith in
        let (i, found, at) = find_index-first p xs x later in (suc i, rw (e, found) refl, at)
  ]

  pub first_fits : (p : A → Bool) (xs : List A) (x : A) → first p xs ≡ some x → p x ≡ true
  unfolding first
  first_fits p [] x h = ground arith
  first_fits p (y ∷ xs) x h = elim (Bool-cases (p y)) [
    | inl e ↦ let same : y ≡ x = ground arith in rw (← same) e
    | inr e ↦ let later : first p xs ≡ some x = ground arith in first_fits p xs x later
  ]

  pub get_last : (xs : List A) (x : A) → get_elem? (xs ++ x ∷ []) (length xs) ≡ some x
  get_last [] x = refl
  get_last (y ∷ xs) x = get_last xs x

  pub find_index-get :
      (p : A → Bool) (xs : List A) (i : ℕ) → find_index p xs ≡ some i → get_elem? xs i ≡ first p xs
  unfolding find_index first
  find_index-get p [] i h = ground arith
  find_index-get p (x ∷ xs) i h = elim (Bool-cases (p x)) [
    | inl e ↦ let here : i ≡ 0 = ground arith in rw (here, e) refl
    | inr e ↦ elim (Option-cases (find_index p xs)) [
      | inl absent ↦ ground arith
      | inr (j, found) ↦
          let there : i ≡ suc j = ground arith in rw (there, e) (find_index-get p xs j found)
    ]
  ]

  pub find_index-none : (p : A → Bool) (xs : List A) → find_index p xs ≡ none → first p xs ≡ none
  unfolding find_index first
  find_index-none p [] h = refl
  find_index-none p (x ∷ xs) h = elim (Bool-cases (p x)) [
    | inl e ↦ ground arith
    | inr e ↦ let later : find_index p xs ≡ none = ground arith in rw e (find_index-none p xs later)
  ]

  pub found_some :
      (p : A → Bool) (xs : List A) (i : ℕ)
      → find_index p xs ≡ some i
      → (x : A) × (first p xs ≡ some x)
  unfolding find_index first
  found_some p [] i h = ground arith
  found_some p (x ∷ xs) i h = elim (Bool-cases (p x)) [
    | inl e ↦ (x, rw e refl)
    | inr e ↦ elim (Option-cases (find_index p xs)) [
      | inl absent ↦ ground arith
      | inr (j, found) ↦ let (y, later) = found_some p xs j found in (y, rw e later)
    ]
  ]

  -- In a table that is not full the slot holds the entry, or the new one.
  pub slot_at-slot :
      (p : A → Bool) (max : ℕ) (fresh : A) (xs : List A)
      → length xs < max
      → slot_at (slot p max fresh xs) ≡ some (or_else fresh (first p xs))
  unfolding slot_at slot
  slot_at-slot p max fresh xs h = elim (Option-cases (find_index p xs)) [
    | inr (i, e) ↦
        let at = find_index-get p xs i e in
        let (x, is_x) = found_some p xs i e in rw (e, slot, is_x) (at ∙ is_x)
    | inl e ↦
        let room : ltb (length xs) max ≡ true = lt→ltb (length xs) max h in
        rw (e, slot, room, find_index-none p xs e) (get_last xs fresh)
  ]
