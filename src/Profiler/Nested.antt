-- ===== src/Profiler/Nested.antt =====
-- What a recursive call measures (src/profiler.c, `profile_function_exit`).
use hifetch.Common.{
  Real, ℕ, ◌≡◌, refl, sym, ap, subst, subst⁻¹, ◌∙◌, inl, inr, true, List, some, leb, length,
  str_eq_refl, Bool-cases, Leaves,
}
use hifetch.Profiler.Calls.{
  new_function, enter_function, profile_function_enter, enter_time, measure, exit_function,
  profile_function_exit, add_profile_event,
}
use hifetch.Profiler.Measures.{
  ==_refl, enters, exits, enter_profiling, enter_stats, enter_time-enter, enter_time-exit,
}
use hifetch.Profiler.Slots.{or_else}
use hifetch.Profiler.State.{FunctionProfile, EventType, exit, SystemProfiler, Reading, max_samples}
use hifetch.Profiler.Stats.{stats}
use hifetch.Profiler.Tables.{HasRoom, exit_function_lem, exit_stats}

module _ {D : Type 0} (k : Real D) where
  enter_own :
      (r : Reading D) (self : ℕ) (name : List ℕ) (p : SystemProfiler D)
      → r.self ≡ self
      → HasRoom k self p
      → (stats self name (enter_function k r name p).threads
          ≡ some (or_else (new_function k name) (stats self name p.threads)))
        × (enter_time k self name (enter_function k r name p).events ≡ r.stamp)
  enter_own r self name p same room =
      subst
        (λ i.
          HasRoom k i p
          → (stats i name (enter_function k r name p).threads
              ≡ some (or_else (new_function k name) (stats i name p.threads)))
            × (enter_time k i name (enter_function k r name p).events ≡ r.stamp))
        same
        (λ here. (
          enter_stats k r name p here r.self name ∙ rw (==_refl r.self, str_eq_refl name) refl,
          enter_time-enter k r name p here,
        ))
        room

  exit_own :
      (r : Reading D) (self : ℕ) (name : List ℕ) (p : SystemProfiler D) (f : FunctionProfile D)
      → r.self ≡ self
      → stats self name p.threads ≡ some f
      → stats self name (exit_function k r name p).threads
        ≡ some (measure k (k.sub r.now (enter_time k self name p.events)) f)
  exit_own r self name p f same h =
      subst
        (λ i.
          stats i name (exit_function k r name p).threads
          ≡ some (measure k (k.sub r.now (enter_time k i name p.events)) f))
        same
        (exit_stats k r name p f (subst (λ i. stats i name p.threads ≡ some f) (sym same) h) r.self
            name
          ∙ rw (==_refl r.self, str_eq_refl name) refl)

  event_profiling :
      (r : Reading D) (event_type : EventType) (name : List ℕ) (d : D) (p : SystemProfiler D)
      → (add_profile_event k r event_type name d p).is_profiling ≡ p.is_profiling
  unfolding add_profile_event
  event_profiling r event_type name d p = elim (Bool-cases (leb max_samples (length p.events))) [
    | inl full ↦ rw (full, add_profile_event) refl
    | inr room ↦ rw (room, add_profile_event) refl
  ]

  exit_profiling :
      (r : Reading D) (name : List ℕ) (p : SystemProfiler D) (f : FunctionProfile D)
      → stats r.self name p.threads ≡ some f
      → p.is_profiling ≡ true
      → (exit_function k r name p).is_profiling ≡ true
  exit_profiling r name p f h on =
      ap (λ q. q.is_profiling) (exit_function_lem k r name p f h)
      ∙ event_profiling r exit name (k.sub r.now (enter_time k r.self name p.events)) _
      ∙ on

  -- With profiling on and with room, a thread that enters a function, enters it again, and leaves it
  -- twice has two calls added to its record, and both durations count from the second entry: the
  -- first entry is in neither.
  pub profile_function_exit-nested :
      (r0 r1 r2 r3 : Reading D) (name : List ℕ) (p : SystemProfiler D)
      → p.is_profiling ≡ true
      → r1.self ≡ r0.self
      → r2.self ≡ r0.self
      → r3.self ≡ r0.self
      → HasRoom k r0.self p
      → HasRoom k r0.self (enter_function k r0 name p)
      → Leaves
          (profile_function_exit k r3 name (
            profile_function_exit k r2 name
              (profile_function_enter k r1 name (profile_function_enter k r0 name (some p)))))
          (λ q.
            stats r0.self name q.threads
            ≡ some (
                measure k (k.sub r3.now r1.stamp) (
                  measure k
                    (k.sub r2.now r1.stamp)
                    (or_else (new_function k name) (stats r0.self name p.threads)))))
  unfolding Leaves
  profile_function_exit-nested r0 r1 r2 r3 name p on s1 s2 s3 room room' =
      let p1 = enter_function k r0 name p in
      let p2 = enter_function k r1 name p1 in
      let p3 = exit_function k r2 name p2 in
      let f = or_else (new_function k name) (stats r0.self name p.threads) in
      let (own, _) = enter_own r0 r0.self name p refl room in
      let (again, began) = enter_own r1 r0.self name p1 s1 room' in
      let before : stats r0.self name p2.threads ≡ some f =
        again ∙ ap (λ o. some (or_else (new_function k name) o)) own in
      let before' : stats r2.self name p2.threads ≡ some f =
        subst (λ i. stats i name p2.threads ≡ some f) (sym s2) before in
      let inner : stats r0.self name p3.threads ≡ some (measure k (k.sub r2.now r1.stamp) f) =
        exit_own r2 r0.self name p2 f s2 before
        ∙ ap (λ t. some (measure k (k.sub r2.now t) f)) began in
      let outer =
        exit_own r3 r0.self name p3 (measure k (k.sub r2.now r1.stamp) f) s3 inner
        ∙ ap (λ t. some (measure k (k.sub r3.now t) (measure k (k.sub r2.now r1.stamp) f)))
            (enter_time-exit k r2 name p2 f before' r0.self name ∙ began) in
      let on1 = enter_profiling k r0 name p on in
      let on2 = enter_profiling k r1 name p1 on1 in
      let on3 = exit_profiling r2 name p2 f before' on2 in
      let runs =
        ap
          (λ o.
            profile_function_exit k r3 name
              (profile_function_exit k r2 name (profile_function_enter k r1 name o)))
          (enters k r0 name p on)
        ∙ ap (λ o. profile_function_exit k r3 name (profile_function_exit k r2 name o))
            (enters k r1 name p1 on1)
        ∙ ap (profile_function_exit k r3 name) (exits k r2 name p2 on2)
        ∙ exits k r3 name p3 on3 in
      subst⁻¹
        (λ o. Leaves o (λ q.
          stats r0.self name q.threads
          ≡ some (measure k (k.sub r3.now r1.stamp) (measure k (k.sub r2.now r1.stamp) f))))
        runs outer
