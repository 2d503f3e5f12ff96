-- ===== src/Profiler/Sorting.antt =====
-- The order of the report (src/profiler.c, `generate_profile_report`).
use hifetch.Common.{
  All, Real, ℕ, zero, suc, ◌-◌, ◌≡◌, refl, sym, ap, subst, inl, inr, true, false, List, [], ◌∷◌,
  ◌++◌, arith, length, Bool-cases,
}
use hifetch.Profiler.Report.{bubble_pass, bubble_sort}
use mathlib.Core.List.{Perm, append-nil}
use mathlib.Core.List.Perm

-- `<` is the strict part of a total preorder, as on the numbers that a `double` holds.
pub record IsOrder {D : Type 0} (k : Real D) : Type 0 where
  pub asym : (a b : D) → k.less a b ≡ true → k.less b a ≡ false
  pub trans : (a b c : D) → k.less a b ≡ false → k.less b c ≡ false → k.less a c ≡ false

module _ {D : Type 0} (k : Real D) {A : Type 0} (key : A → D) where
  -- `x` is not less than `y`.
  abbrev pub AtLeast : A → A → Type 0
  AtLeast x y = k.less (key x) (key y) ≡ false

  -- No entry is less than one after it.
  unfoldable pub IsDescending : List A → Type 0
  IsDescending [] = Unit {0}
  IsDescending (x ∷ xs) = All (AtLeast x) xs × IsDescending xs

  bubble_pass-Perm : (n : ℕ) (fs : List A) → Perm (bubble_pass k key n fs) fs
  unfolding bubble_pass
  bubble_pass-Perm zero fs = Perm.refl fs
  bubble_pass-Perm (suc n) [] = Perm.refl []
  bubble_pass-Perm (suc n) (f ∷ []) = Perm.refl (f ∷ [])
  bubble_pass-Perm (suc n) (f ∷ g ∷ fs) = elim (Bool-cases (k.less (key f) (key g))) [
    | inl swap ↦ rw swap (Perm.trans (Perm.cons g (bubble_pass-Perm n (f ∷ fs))) (Perm.swap f g fs))
    | inr stay ↦ rw stay (Perm.cons f (bubble_pass-Perm n (g ∷ fs)))
  ]

  bubble_sort-Perm : (n : ℕ) (fs : List A) → Perm (bubble_sort k key n fs) fs
  unfolding bubble_sort
  bubble_sort-Perm zero fs = Perm.refl fs
  bubble_sort-Perm (suc n) fs =
      Perm.trans (bubble_sort-Perm n (bubble_pass k key (suc n) fs)) (bubble_pass-Perm (suc n) fs)

  -- A pass over `n + 1` entries moves the least of them to the end.
  pub record Sinks (P : A → Type 0) (f : A) (fs : List A) (n : ℕ) (back : List A) : Type 0 where
    pub front : List A
    pub least : A
    pub passed : bubble_pass k key n (f ∷ (fs ++ back)) ≡ front ++ (least ∷ back)
    pub same_length : length front ≡ n
    pub above : All (λ x. AtLeast x least) front
    pub first_above : AtLeast f least
    pub kept : All P front × P least

  AtLeast-refl : IsOrder k → (x : A) → AtLeast x x
  AtLeast-refl o x = elim (Bool-cases (k.less (key x) (key x))) [
    | inl e ↦ o.asym (key x) (key x) e
    | inr e ↦ e
  ]

  bubble_pass-Sinks :
      IsOrder k
      → (n : ℕ) (f : A) (fs back : List A) → length fs ≡ n
      → (P : A → Type 0) → All P (f ∷ fs)
      → Sinks P f fs n back
  unfolding bubble_pass
  bubble_pass-Sinks o zero f [] back h P (pf, ps) = record {
    front = [];
    least = f;
    passed = refl;
    same_length = refl;
    above = tt;
    first_above = AtLeast-refl o f;
    kept = (tt, pf);
  }
  bubble_pass-Sinks o zero f (g ∷ fs) back h P ps = absurd (omega arith)
  bubble_pass-Sinks o (suc n) f [] back h P ps = absurd (omega arith)
  bubble_pass-Sinks o (suc n) f (g ∷ fs) back h P (pf, ps) =
      elim (Bool-cases (k.less (key f) (key g))) [
        | inl swap ↦
            let s = bubble_pass-Sinks o n f fs back (omega arith) P (pf, ps.1) in
            record {
              front = g ∷ s.front;
              least = s.least;
              passed = rw swap (ap (λ r. g ∷ r) s.passed);
              same_length = ap suc s.same_length;
              above = (
                o.trans (key g) (key f) (key s.least) (o.asym (key f) (key g) swap) s.first_above,
                s.above,
              );
              first_above = s.first_above;
              kept = ((ps.0, s.kept.0), s.kept.1);
            }
        | inr stay ↦
            let s = bubble_pass-Sinks o n g fs back (omega arith) P ps in
            let over = o.trans (key f) (key g) (key s.least) stay s.first_above in
            record {
              front = f ∷ s.front;
              least = s.least;
              passed = rw stay (ap (λ r. f ∷ r) s.passed);
              same_length = ap suc s.same_length;
              above = (over, s.above);
              first_above = over;
              kept = ((pf, s.kept.0), s.kept.1);
            }
      ]

  All-join :
      (P Q R : A → Type 0)
      → ((x : A) → P x → Q x → R x)
      → (xs : List A) → All P xs
      → All Q xs
      → All R xs
  All-join P Q R f [] hp hq = tt
  All-join P Q R f (x ∷ xs) (p, ps) (q, qs) = (f x p q, All-join P Q R f xs ps qs)

  every_empty : (xs : List A) → All (λ x. All (AtLeast x) []) xs
  every_empty [] = tt
  every_empty (x ∷ xs) = (tt, every_empty xs)

  -- `back` is in order already, and nothing before it is less than an entry of it.
  bubble_sort-IsDescending :
      IsOrder k
      → (n : ℕ) (front back : List A) → length front ≡ suc n
      → IsDescending back
      → All (λ x. All (AtLeast x) back) front
      → IsDescending (bubble_sort k key n (front ++ back))
  unfolding bubble_sort IsDescending
  bubble_sort-IsDescending o n [] back len sorted over = absurd (omega arith)
  bubble_sort-IsDescending o zero (f ∷ []) back len sorted over = (over.0, sorted)
  bubble_sort-IsDescending o zero (f ∷ g ∷ front) back len sorted over = absurd (omega arith)
  bubble_sort-IsDescending o (suc n) (f ∷ front) back len sorted over =
      let s =
        bubble_pass-Sinks o (suc n) f front back (omega arith) (λ x. All (AtLeast x) back) over in
      subst (λ l. IsDescending (bubble_sort k key n l)) (sym s.passed)
        (bubble_sort-IsDescending o n s.front (s.least ∷ back) s.same_length (s.kept.1, sorted)
          (All-join (λ x. AtLeast x s.least) (λ x. All (AtLeast x) back)
            (λ x. All (AtLeast x) (s.least ∷ back)) (λ x p q. (p, q)) s.front s.above s.kept.0))

  pub bubble_sort_lem :
      IsOrder k
      → (fs : List A)
      → IsDescending (bubble_sort k key (length fs - 1) fs)
        × Perm (bubble_sort k key (length fs - 1) fs) fs
  unfolding bubble_sort IsDescending
  bubble_sort_lem o [] = (tt, Perm.refl [])
  bubble_sort_lem o (f ∷ fs) =
      let n : length (f ∷ fs) - 1 ≡ length fs = omega arith in
      rw n (
        subst (λ l. IsDescending (bubble_sort k key (length fs) l)) (append-nil (f ∷ fs))
            (bubble_sort-IsDescending o (length fs) (f ∷ fs) [] refl tt (every_empty (f ∷ fs))),
        bubble_sort-Perm (length fs) (f ∷ fs),
      )
