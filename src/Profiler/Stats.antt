-- ===== src/Profiler/Stats.antt =====
-- What the profiler knows of a function of a thread, as a map (src/profiler.c).
use hifetch.Common.{
  ℕ, ◌≡◌, refl, ap, subst, subst₂, ◌∙◌, inl, inr, Bool, true, false, ◌&&◌, List, [], Option, none,
  some, arith, ◌==◌, ==_iff, if◌then◌else◌, str_eq, str_eq_iff, str_eq_refl, Bool-cases,
  Option-cases,
}
use hifetch.Profiler.Slots.{
  upsert, first, or_else, first-upsert-none, first-upsert_found, first_fits, first-upsert_other,
}
use hifetch.Profiler.State.{FunctionProfile, ThreadProfile, is_thread, is_named, with_functions}

module _ {D : Type 0} where
  unfoldable pub functions_of : Option (ThreadProfile D) → List (FunctionProfile D)
  functions_of none = []
  functions_of (some t) = t.functions

  -- The record of the function `name` under the thread `self`.
  unfoldable pub stats : ℕ → List ℕ → List (ThreadProfile D) → Option (FunctionProfile D)
  stats self name threads = first (is_named name) (functions_of (first (is_thread self) threads))

  -- Both tables walked at once: `room` and `room'` say whether they have room.
  unfoldable pub record_in :
      ℕ
      → List ℕ
      → Bool
      → ThreadProfile D
      → (ThreadProfile D → Bool)
      → FunctionProfile D
      → (FunctionProfile D → FunctionProfile D)
      → List (ThreadProfile D)
      → List (ThreadProfile D)
  record_in self name room t0 room' f0 m threads =
      upsert (is_thread self) room t0
        (λ t. with_functions t (upsert (is_named name) (room' t) f0 m t.functions)) threads

  named_apart :
      (name name' : List ℕ) (f : FunctionProfile D)
      → str_eq name name' ≡ false
      → is_named name f ≡ true
      → is_named name' f ≡ false
  named_apart name name' f apart h = rw ((str_eq_iff f.name name).0 h) apart

  module _ (self : ℕ) (name : List ℕ) (room : Bool) (t0 : ThreadProfile D)
      (room' : ThreadProfile D → Bool) (f0 : FunctionProfile D)
      (m : FunctionProfile D → FunctionProfile D) (t0_self : t0.thread_id ≡ self)
      (t0_empty : t0.functions ≡ []) (f0_name : f0.name ≡ name)
      (keep : (f : FunctionProfile D) → (m f).name ≡ f.name)
      (threads : List (ThreadProfile D)) where
    thread_new :
        is_thread self (with_functions t0 (upsert (is_named name) (room' t0) f0 m t0.functions))
        ≡ true
    thread_new = (==_iff t0.thread_id self).1 t0_self

    new_named : is_named name (m f0) ≡ true
    new_named = rw (keep f0 ∙ f0_name) (str_eq_refl name)

    functions_other :
        (name' : List ℕ) (t : ThreadProfile D)
        → str_eq name name' ≡ false
        → first (is_named name') (upsert (is_named name) (room' t) f0 m t.functions)
          ≡ first (is_named name') t.functions
    functions_other name' t apart =
        first-upsert_other (is_named name) (is_named name') (room' t) f0 m t.functions
          (named_apart name name' (m f0) apart new_named) (λ f h. named_apart name name' f apart h)
          (λ f. ap (λ n. str_eq n name') (keep f))

    touched : ThreadProfile D → ThreadProfile D
    touched t = with_functions t (upsert (is_named name) (room' t) f0 m t.functions)

    thread_found :
        (t : ThreadProfile D)
        → first (is_thread self) threads ≡ some t
        → first (is_thread self) (record_in self name room t0 room' f0 m threads) ≡ some (touched t)
    unfolding record_in touched
    thread_found t e =
        first-upsert_found (is_thread self) room t0 touched threads t e
          (first_fits (is_thread self) threads t e)

    thread_none :
        first (is_thread self) threads ≡ none
        → first (is_thread self) (record_in self name room t0 room' f0 m threads)
          ≡ (if room then some (touched t0) else none)
    unfolding record_in touched
    thread_none e = first-upsert-none (is_thread self) room t0 touched threads e thread_new

    same_thread :
        (name' : List ℕ)
        → str_eq name name' ≡ false
        → stats self name' (record_in self name room t0 room' f0 m threads)
          ≡ stats self name' threads
    unfolding stats functions_of touched
    same_thread name' apart = elim (Option-cases (first (is_thread self) threads)) [
      | inr (t, e) ↦ rw (thread_found t e, e) (functions_other name' t apart)
      | inl e ↦ elim (Bool-cases room) [
        | inl yes_room ↦
            rw (thread_none e, e, yes_room)
              (functions_other name' t0 apart ∙ ap (first (is_named name')) t0_empty)
        | inr no_room ↦ rw (thread_none e, e, no_room) refl
      ]
    ]

    -- The other functions, of this thread and of the others, are as before.
    pub stats-record_other :
        (self' : ℕ) (name' : List ℕ)
        → (self == self') && str_eq name name' ≡ false
        → stats self' name' (record_in self name room t0 room' f0 m threads)
          ≡ stats self' name' threads
    unfolding stats record_in touched
    stats-record_other self' name' h = elim (Bool-cases (self == self')) [
      | inl same ↦
          let e : self ≡ self' = (==_iff self self').0 same in
          subst
            (λ i.
              stats i name' (record_in self name room t0 room' f0 m threads)
              ≡ stats i name' threads)
            e (same_thread name' (ground (arith, h, same)))
      | inr other ↦
          ap (λ o. first (is_named name') (functions_of o))
            (first-upsert_other (is_thread self) (is_thread self') room t0 touched threads
              (rw t0_self other) (λ t e. rw ((==_iff t.thread_id self).0 e) other) (λ t. refl))
    ]

    pub stats-record_found :
        (f : FunctionProfile D)
        → stats self name threads ≡ some f
        → stats self name (record_in self name room t0 room' f0 m threads) ≡ some (m f)
    unfolding stats functions_of touched first
    stats-record_found f h = elim (Option-cases (first (is_thread self) threads)) [
      | inr (t, e) ↦
          let there : first (is_named name) t.functions ≡ some f =
            subst (λ o. first (is_named name) (functions_of o) ≡ some f) e h in
          rw (thread_found t e) (
            first-upsert_found (is_named name) (room' t) f0 m t.functions f there
              (rw (keep f) (first_fits (is_named name) t.functions f there)))
      | inl e ↦
          let nothing : first (is_named name) [] ≡ some f =
            subst (λ o. first (is_named name) (functions_of o) ≡ some f) e h in
          ground (arith, nothing)
    ]

    -- With room in both tables the function has an entry afterwards.
    pub stats-record_new :
        room ≡ true
        → room' (or_else t0 (first (is_thread self) threads)) ≡ true
        → stats self name (record_in self name room t0 room' f0 m threads)
          ≡ some (m (or_else f0 (stats self name threads)))
    unfolding stats functions_of touched first
    stats-record_new yes_room space = elim (Option-cases (stats self name threads)) [
      | inr (f, e) ↦ rw e (stats-record_found f e)
      | inl absent ↦ elim (Option-cases (first (is_thread self) threads)) [
        | inr (t, e) ↦
            let gone : first (is_named name) t.functions ≡ none =
              subst (λ o. first (is_named name) (functions_of o) ≡ none) e absent in
            let space' : room' t ≡ true = subst (λ o. room' (or_else t0 o) ≡ true) e space in
            rw (thread_found t e, absent)
              (first-upsert-none (is_named name) (room' t) f0 m t.functions gone new_named
                ∙ rw space' refl)
        | inl e ↦
            let space' : room' t0 ≡ true = subst (λ o. room' (or_else t0 o) ≡ true) e space in
            let gone : first (is_named name) t0.functions ≡ none = rw t0_empty refl in
            rw (thread_none e, yes_room, absent)
              (first-upsert-none (is_named name) (room' t0) f0 m t0.functions gone new_named
                ∙ rw space' refl)
      ]
    ]

  -- A map that changes at one key only.
  pub stats_if :
      (self : ℕ) (name : List ℕ) (threads threads' : List (ThreadProfile D))
      (v : Option (FunctionProfile D))
      → stats self name threads' ≡ v
      → ((i : ℕ) (n : List ℕ)
          → (self == i) && str_eq name n ≡ false
          → stats i n threads' ≡ stats i n threads)
      → (i : ℕ) (n : List ℕ)
      → stats i n threads' ≡ (if (self == i) && str_eq name n then v else stats i n threads)
  stats_if self name threads threads' v here others i n =
      elim (Bool-cases ((self == i) && str_eq name n)) [
        | inl same ↦
            let e : self ≡ i = (==_iff self i).0 (ground (arith, same)) in
            let e' : name ≡ n = (str_eq_iff name n).0 (ground (arith, same)) in
            rw same (subst₂ (λ j m. stats j m threads' ≡ v) e e' here)
        | inr other ↦ rw other (others i n other)
      ]
