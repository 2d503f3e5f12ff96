-- ===== src/Hitop/Filter.antt =====
-- What a refresh leaves in the process list (src/process.c, `get_processes`).
use hifetch.Common.{
  take-append, length-drop, ℕ, zero, suc, ◌+◌, ◌≤◌, ◌<◌, ◌≡◌, refl, sym, ap, subst, subst⁻¹, ◌∙◌,
  inl, inr, Bool, true, false, List, [], ◌∷◌, ◌++◌, some, arith, ◌==◌, if◌then◌else◌, ℤ, get_elem?,
  length, take, drop, set, filter, filter_all, strstr-nil, Bool-cases, ==_iff, length-append,
  length-set, length-take,
}
use hifetch.Hitop.Refresh.{compact, matches, filtered, sorted, get_processes, compare_processes}
use hifetch.Hitop.State.{Process, ProcessList}
use mathlib.Core.List.{Perm, append-nil, append_assoc}
use mathlib.Core.Option

module _ {A : Type 0} where
  take-set :
      (xs : List A) (k : ℕ) (x : A)
      → k < length xs
      → take (suc k) (set xs k x) ≡ take k xs ++ x ∷ []
  take-set [] k x h = absurd (omega arith)
  take-set (y ∷ xs) zero x h = refl
  take-set (y ∷ xs) (suc k) x h = ap (λ r. y ∷ r) (take-set xs k x (omega arith))

  drop-set : (xs : List A) (k j : ℕ) (x : A) → k < j → drop j (set xs k x) ≡ drop j xs
  drop-set [] k j x h = refl
  drop-set (y ∷ xs) zero (suc j) x h = refl
  drop-set (y ∷ xs) (suc k) (suc j) x h = drop-set xs k j x (omega arith)
  drop-set (y ∷ xs) k zero x h = absurd (omega arith)

  take_next :
      (xs : List A) (k : ℕ) (x : A)
      → get_elem? xs k ≡ some x
      → take (suc k) xs ≡ take k xs ++ x ∷ []
  take_next [] k x h = ground arith
  take_next (y ∷ xs) zero x h = ground arith
  take_next (y ∷ xs) (suc k) x h = ap (λ r. y ∷ r) (take_next xs k x h)

  drop_next :
      (xs : List A) (j : ℕ)
      → j < length xs
      → (x : A) × (get_elem? xs j ≡ some x) × (drop j xs ≡ x ∷ drop (suc j) xs)
  drop_next [] j h = absurd (omega arith)
  drop_next (y ∷ xs) zero h = (y, refl, refl)
  drop_next (y ∷ xs) (suc j) h = drop_next xs j (omega arith)

  cat_step :
      (front back ys zs : List A) (x : A)
      → front ≡ ys ++ x ∷ []
      → back ≡ zs
      → front ++ back ≡ ys ++ x ∷ zs
  cat_step front back ys zs x e e' = rw (e, e') (append_assoc ys (x ∷ []) zs)

  compact_step :
      (keep : A → Bool) (n j k : ℕ) (xs : List A) (x : A)
      → get_elem? xs j ≡ some x
      → compact keep (suc n) j k xs
        ≡ compact keep n
            (suc j)
            (if keep x then suc k else k)
            (if keep x then (if j == k then xs else set xs k x) else xs)
  unfolding compact
  compact_step keep n j k xs x at = rw (at, compact) refl

  -- The array after an entry is kept.
  placed :
      (j k : ℕ) (xs : List A) (x : A)
      → k ≤ j
      → j < length xs
      → get_elem? xs j ≡ some x
      → let ys = if j == k then xs else set xs k x in
        (length ys ≡ length xs)
        × (take (suc k) ys ≡ take k xs ++ x ∷ [])
        × (drop (suc j) ys ≡ drop (suc j) xs)
  placed j k xs x kj h at = elim (Bool-cases (j == k)) [
    | inl same ↦
        let jk : j ≡ k = (==_iff j k).0 same in
        rw same (refl, take_next xs k x (subst (λ i. get_elem? xs i ≡ some x) jk at), refl)
    | inr other ↦
        rw other
          (length-set xs k x, take-set xs k x (omega arith), drop-set xs k (suc j) x (omega arith))
  ]

  -- A run of the loop that keeps of the next `n` entries those that pass the test.
  pub compact_lem :
      (keep : A → Bool) (n j k : ℕ) (xs : List A)
      → k ≤ j
      → j + n ≤ length xs
      → (r : List A × ℕ) × (compact keep n j k xs ≡ some r)
        × (take r.1 r.0 ≡ take k xs ++ filter keep (take n (drop j xs)))
        × (length r.0 ≡ length xs)
        × (r.1 ≤ j + n)
  unfolding compact filter
  compact_lem keep zero j k xs kj h =
      ((xs, k), refl, sym (append-nil (take k xs)), refl, omega arith)
  compact_lem keep (suc n) j k xs kj h =
      let (x, at, here) = drop_next xs j (omega arith) in
      let step = compact_step keep n j k xs x at in
      elim (Bool-cases (keep x)) [
        | inl kept ↦
            let (same, front, back) = placed j k xs x kj (omega arith) at in
            let (r, run, all, len, bound) =
              compact_lem keep n (suc j) (suc k) (if j == k then xs else set xs k x) (omega arith)
                (omega (arith, same)) in
            (
              r,
              step ∙ rw kept run,
              all
                  ∙ rw (here, kept)
                      (cat_step _ _ (take k xs) _ x front (ap (λ d. filter keep (take n d)) back)),
              len ∙ same,
              omega (arith, bound),
            )
        | inr skipped ↦
            let (r, run, all, len, bound) =
              compact_lem keep n (suc j) k xs (omega arith) (omega arith) in
            (r, step ∙ rw skipped run, rw (here, skipped) all, len, omega (arith, bound))
      ]

  length-take_le : (n : ℕ) (xs : List A) → n ≤ length xs → length (take n xs) ≡ n
  length-take_le n xs h = omega (arith, length-take n xs)

module _ {D : Type 0} where
  matches-nil : (p : Process D) → matches [] p ≡ true
  unfolding matches
  matches-nil p = rw (strstr-nil p.command) refl

  filtered_lem :
      (text : List ℕ) (n : ℕ) (xs : List (Process D))
      → n ≤ length xs
      → (r : List (Process D) × ℕ) × (filtered text n xs ≡ some r)
        × (take r.1 r.0 ≡ filter (matches text) (take n xs))
        × (length r.0 ≡ length xs)
        × (r.1 ≤ length xs)
  unfolding filtered
  filtered_lem [] n xs h =
      ((xs, n), refl, sym (filter_all (matches []) matches-nil (take n xs)), refl, h)
  filtered_lem (c ∷ text) n xs h =
      let long : (suc (length text) == 0) ≡ false = ground arith in
      let (r, run, front, len, bound) =
        compact_lem (matches (c ∷ text)) n 0 0 xs (omega arith) (omega arith) in
      (r, rw long run, front, len, omega (arith, bound))

  -- A refresh with the entries of `/proc`, as many as the array holds, ends with a list whose first
  -- `count` entries are, up to their order, the entries whose command or user has the filter's text
  -- in it. The array keeps its size, and the cursor stays where it was, in range or not. Of `qsort`
  -- it is used that it permutes its array.
  pub get_processes-filters :
      (gt : D → D → Bool) (strcmp : List ℕ → List ℕ → ℤ)
      (qsort : (Process D → Process D → ℤ) → List (Process D) → List (Process D))
      → ((order : Process D → Process D → ℤ) (l : List (Process D))
          → length (qsort order l) ≡ length l)
      → ((order : Process D → Process D → ℤ) (l : List (Process D)) → Perm (qsort order l) l)
      → (entries : List (Process D)) (plist : ProcessList D)
      → length entries ≤ length plist.processes
      → (plist' : ProcessList D) × (get_processes gt strcmp qsort (some entries) plist
          ≡ some plist')
        × Perm (take plist'.count plist'.processes) (filter (matches plist.filter) entries)
        × (plist'.count ≡ length (filter (matches plist.filter) entries))
        × (length plist'.processes ≡ length plist.processes)
        × (plist'.selected ≡ plist.selected)
  unfolding get_processes
  get_processes-filters gt strcmp qsort same_length permutes entries plist fits =
      let xs = entries ++ drop (length entries) plist.processes in
      let total : length xs ≡ length plist.processes = omega (
        arith,
        length-append entries (drop (length entries) plist.processes),
        length-drop (length entries) plist.processes,
      ) in
      let ((ys, n), run, front, len, bound) =
        filtered_lem plist.filter (length entries) xs (omega (arith, total)) in
      let order = compare_processes gt strcmp plist in
      let shown = qsort order (take n ys) in
      let kept : take n ys ≡ filter (matches plist.filter) entries =
        front ∙ ap (filter (matches plist.filter)) (take-append entries _) in
      let n_shown : length shown ≡ n =
        same_length order (take n ys) ∙ length-take_le n ys (omega (arith, bound, len)) in
      let first : take n (shown ++ drop n ys) ≡ shown =
        subst (λ k. take k (shown ++ drop n ys) ≡ shown) n_shown (take-append shown (drop n ys)) in
      (
        sorted qsort order plist (ys, n),
        ap (Option.map (sorted qsort order plist)) run,
        subst⁻¹ (λ l. Perm l (filter (matches plist.filter) entries)) first
            (subst (λ l. Perm shown l) kept (permutes order (take n ys))),
        sym (length-take_le n ys (omega (arith, bound, len))) ∙ ap length kept,
        omega
            (arith, length-append shown (drop n ys), length-drop n ys, n_shown, len, total, bound),
        refl,
      )
