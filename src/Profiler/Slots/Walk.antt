-- ===== src/Profiler/Slots/Walk.antt =====
-- The change of a table at the slot of an entry as one walk over it (src/profiler.c).
use hifetch.Common.{
  ℕ, suc, ◌≡◌, refl, ap, ◌∙◌, inl, inr, Bool, true, false, List, [], ◌∷◌, ◌++◌, none, some, arith,
  ltb, get_elem?, set, length, Bool-cases, Option-cases,
}
use hifetch.Profiler.Slots.Table.{find_index, slot, modify, modify_slot, upsert}

module _ {A : Type 0} where
  pub modify-cons :
      (i : ℕ) (f : A → A) (x : A) (xs : List A) → modify (suc i) f (x ∷ xs) ≡ x ∷ modify i f xs
  unfolding modify
  modify-cons i f x xs = elim (Option-cases (get_elem? xs i)) [
    | inl e ↦ rw (e, modify) refl
    | inr (y, e) ↦ rw (e, modify) refl
  ]

  pub modify_last :
      (f : A → A) (xs : List A) (x : A) → modify (length xs) f (xs ++ x ∷ []) ≡ xs ++ f x ∷ []
  unfolding modify
  modify_last f [] x = refl
  modify_last f (y ∷ xs) x =
      modify-cons (length xs) f y (xs ++ x ∷ []) ∙ ap (λ r. y ∷ r) (modify_last f xs x)

  -- The walk is the search followed by the change.
  pub modify_found :
      (p : A → Bool) (room : Bool) (fresh : A) (f : A → A) (xs : List A) (i : ℕ)
      → find_index p xs ≡ some i
      → modify i f xs ≡ upsert p room fresh f xs
  unfolding find_index upsert modify
  modify_found p room fresh f [] i h = ground arith
  modify_found p room fresh f (x ∷ xs) i h = elim (Bool-cases (p x)) [
    | inl e ↦ let here : i ≡ 0 = ground arith in rw (here, e) refl
    | inr e ↦ elim (Option-cases (find_index p xs)) [
      | inl absent ↦ ground arith
      | inr (j, found) ↦
          let there : i ≡ suc j = ground arith in
          rw (there, e)
            (modify-cons j f x xs ∙ ap (λ r. x ∷ r) (modify_found p room fresh f xs j found))
    ]
  ]

  pub append_fresh :
      (p : A → Bool) (fresh : A) (f : A → A) (xs : List A)
      → find_index p xs ≡ none
      → (xs ++ f fresh ∷ [] ≡ upsert p true fresh f xs) × (xs ≡ upsert p false fresh f xs)
  unfolding find_index upsert
  append_fresh p fresh f [] h = (refl, refl)
  append_fresh p fresh f (x ∷ xs) h = elim (Bool-cases (p x)) [
    | inl e ↦ ground arith
    | inr e ↦
        let absent : find_index p xs ≡ none = ground arith in
        let (with_room, without) = append_fresh p fresh f xs absent in
        rw e (ap (λ r. x ∷ r) with_room, ap (λ r. x ∷ r) without)
  ]

  -- A change of the slot is the walk, with room for a new entry where the table is not full.
  pub modify_slot-slot :
      (p : A → Bool) (max : ℕ) (fresh : A) (f : A → A) (xs : List A)
      → modify_slot f (slot p max fresh xs) ≡ upsert p (ltb (length xs) max) fresh f xs
  unfolding modify_slot slot upsert
  modify_slot-slot p max fresh f xs = elim (Option-cases (find_index p xs)) [
    | inr (i, e) ↦ rw (e, slot) (modify_found p (ltb (length xs) max) fresh f xs i e)
    | inl e ↦ elim (Bool-cases (ltb (length xs) max)) [
      | inl room ↦ rw (e, slot, room) (modify_last f xs fresh ∙ (append_fresh p fresh f xs e).0)
      | inr full ↦ rw (e, slot, full) (append_fresh p fresh f xs e).1
    ]
  ]

  pub upsert_id :
      (p : A → Bool) (room : Bool) (fresh : A) (xs : List A) (i : ℕ)
      → find_index p xs ≡ some i
      → xs ≡ upsert p room fresh (λ x. x) xs
  unfolding find_index upsert
  upsert_id p room fresh [] i h = ground arith
  upsert_id p room fresh (x ∷ xs) i h = elim (Bool-cases (p x)) [
    | inl e ↦ rw e refl
    | inr e ↦ elim (Option-cases (find_index p xs)) [
      | inl absent ↦ ground arith
      | inr (j, found) ↦ rw e (ap (λ r. x ∷ r) (upsert_id p room fresh xs j found))
    ]
  ]

  -- The table that the search for a slot leaves.
  pub slot-upsert :
      (p : A → Bool) (max : ℕ) (fresh : A) (xs : List A)
      → (slot p max fresh xs).1 ≡ upsert p (ltb (length xs) max) fresh (λ x. x) xs
  unfolding slot upsert
  slot-upsert p max fresh xs = elim (Option-cases (find_index p xs)) [
    | inr (i, e) ↦ rw (e, slot) (upsert_id p (ltb (length xs) max) fresh xs i e)
    | inl e ↦ elim (Bool-cases (ltb (length xs) max)) [
      | inl room ↦ rw (e, slot, room) (append_fresh p fresh (λ x. x) xs e).0
      | inr full ↦ rw (e, slot, full) (append_fresh p fresh (λ x. x) xs e).1
    ]
  ]

  pub modify_congr :
      (f g : A → A) (xs : List A) (i : ℕ) (x : A)
      → get_elem? xs i ≡ some x
      → f x ≡ g x
      → modify i f xs ≡ modify i g xs
  unfolding modify
  modify_congr f g xs i x at e = rw (at, modify) (ap (set xs i) e)
