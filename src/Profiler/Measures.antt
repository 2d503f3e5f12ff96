-- ===== src/Profiler/Measures.antt =====
-- What pairs of calls measure (src/profiler.c, `profile_function_enter` and
-- `profile_function_exit`).
use hifetch.Common.{
  Real, ℕ, ◌≡◌, refl, sym, ap, subst, subst⁻¹, ◌∙◌, inl, inr, true, ◌&&◌, List, [], ◌∷◌, ◌++◌,
  Option, none, some, arith, ◌==◌, ==_iff, if◌then◌else◌, leb, ltb, lt→ltb, length, str_eq,
  str_eq_refl, Bool-cases, Leaves,
}
use hifetch.Profiler.Calls.{
  new_event, enter_event, function_slot, new_thread, new_function, enter_function,
  profile_function_enter, is_enter, last_enter, enter_time, measure, exit_function,
  profile_function_exit, add_profile_event,
}
use hifetch.Profiler.Slots.{or_else, first, slot_at}
use mathlib.Core.Option
use hifetch.Profiler.State.{
  FunctionProfile, enter, exit, ProfileEvent, ThreadProfile, SystemProfiler, Reading, is_thread,
  max_threads, max_functions, max_samples,
}
use hifetch.Profiler.Stats.{
  stats, functions_of, record_in, stats-record_other, stats-record_new, stats_if,
}
use hifetch.Profiler.Tables.{
  HasRoom, enter-threads, enter-events, exit_function_lem, exit_stats, functions_new,
}

pub ==_refl : (a : ℕ) → (a == a) ≡ true
==_refl a = (==_iff a a).1 refl

module _ {D : Type 0} (k : Real D) where
  last_enter-append :
      (self : ℕ) (name : List ℕ) (events : List (ProfileEvent D)) (e : ProfileEvent D)
      → last_enter k self name (events ++ e ∷ [])
        ≡ (if is_enter k self name e then some e else last_enter k self name events)
  unfolding last_enter
  last_enter-append self name [] e = refl
  last_enter-append self name (x ∷ events) e =
      let ih = last_enter-append self name events e in
      elim (Bool-cases (is_enter k self name e)) [
        | inl yes_enter ↦ rw (ih, yes_enter) refl
        | inr no_enter ↦ rw (ih, no_enter) refl
      ]

  is_enter-new :
      (r : Reading D) (name : List ℕ)
      → is_enter k r.self name (new_event k r enter name k.zero) ≡ true
  unfolding is_enter
  is_enter-new r name = ground (arith, str_eq_refl name)

  pub enter_stats :
      (r : Reading D) (name : List ℕ) (p : SystemProfiler D)
      → HasRoom k r.self p
      → (self' : ℕ) (name' : List ℕ)
      → stats self' name' (enter_function k r name p).threads ≡ (
          if (r.self == self') && str_eq name name'
          then some (or_else (new_function k name) (stats r.self name p.threads))
          else stats self' name' p.threads)
  unfolding new_thread new_function
  enter_stats r name p room self' name' =
      stats_if r.self name p.threads (enter_function k r name p).threads
        (some (or_else (new_function k name) (stats r.self name p.threads)))
        (ap (stats r.self name) tables
          ∙ stats-record_new r.self name (ltb (length p.threads) max_threads)
              (new_thread k r (length p.threads)) (λ t. ltb (length t.functions) max_functions)
              (new_function k name) (λ f. f) refl refl refl (λ f. refl) p.threads
              (lt→ltb (length p.threads) max_threads room.for_thread) space)
        (λ i n other.
          ap (stats i n) tables
          ∙ stats-record_other r.self name (ltb (length p.threads) max_threads)
              (new_thread k r (length p.threads)) (λ t. ltb (length t.functions) max_functions)
              (new_function k name) (λ f. f) refl refl refl (λ f. refl) p.threads i n other)
        self' name'
    where
      tables :
          (enter_function k r name p).threads
          ≡ record_in r.self name
              (ltb (length p.threads) max_threads)
              (new_thread k r (length p.threads))
              (λ t. ltb (length t.functions) max_functions)
              (new_function k name)
              (λ f. f)
              p.threads
      tables = enter-threads k r name p

      mine : Option (ThreadProfile D)
      mine = first (is_thread r.self) p.threads

      space :
          ltb (length (or_else (new_thread k r (length p.threads)) mine).functions) max_functions
          ≡ true
      space =
          subst (λ fs. ltb (length fs) max_functions ≡ true)
            (sym (functions_new k r (length p.threads) mine))
            (lt→ltb (length (functions_of mine)) max_functions room.for_function)

  pub enter_time-enter :
      (r : Reading D) (name : List ℕ) (p : SystemProfiler D)
      → HasRoom k r.self p
      → enter_time k r.self name (enter_function k r name p).events ≡ r.stamp
  unfolding enter_time
  enter_time-enter r name p room =
      let found : last_enter k r.self name (enter_function k r name p).events
          ≡ some (new_event k r enter name k.zero) =
        ap (last_enter k r.self name) (enter-events k r name p room)
        ∙ last_enter-append r.self name p.events (new_event k r enter name k.zero)
        ∙ rw (is_enter-new r name) refl in
      rw (found, enter_time) refl

  -- Recording the end of a call hides no beginning.
  last_enter-exit :
      (r : Reading D) (name : List ℕ) (d : D) (p : SystemProfiler D) (self' : ℕ) (name' : List ℕ)
      → last_enter k self' name' (add_profile_event k r exit name d p).events
        ≡ last_enter k self' name' p.events
  unfolding add_profile_event is_enter
  last_enter-exit r name d p self' name' = elim (Bool-cases (leb max_samples (length p.events))) [
    | inl full ↦ rw (full, add_profile_event) refl
    | inr room ↦
        rw (room, add_profile_event)
          (last_enter-append self' name' p.events (new_event k r exit name d))
  ]

  pub enter_time-exit :
      (r : Reading D) (name : List ℕ) (p : SystemProfiler D) (f : FunctionProfile D)
      → stats r.self name p.threads ≡ some f
      → (self' : ℕ) (name' : List ℕ)
      → enter_time k self' name' (exit_function k r name p).events
        ≡ enter_time k self' name' p.events
  unfolding enter_time
  enter_time-exit r name p f h self' name' =
      ap (λ q. enter_time k self' name' q.events) (exit_function_lem k r name p f h)
      ∙ rw
          (
            last_enter-exit r name (k.sub r.now (enter_time k r.self name p.events)) _ self' name',
            enter_time,
          )
          refl

  enter_event-profiling :
      (r : Reading D) (name : List ℕ) (o : Option (Option ℕ × List (FunctionProfile D)))
      (p : SystemProfiler D)
      → (enter_event k r name o p).is_profiling ≡ p.is_profiling
  unfolding enter_event add_profile_event
  enter_event-profiling r name (some (some j, fs)) p =
      elim (Bool-cases (leb max_samples (length p.events))) [
        | inl full ↦ rw (full, add_profile_event) refl
        | inr room ↦ rw (room, add_profile_event) refl
      ]
  enter_event-profiling r name (some (none, fs)) p = refl
  enter_event-profiling r name none p = refl

  pub enter_profiling :
      (r : Reading D) (name : List ℕ) (p : SystemProfiler D)
      → p.is_profiling ≡ true
      → (enter_function k r name p).is_profiling ≡ true
  unfolding enter_function
  enter_profiling r name p h =
      enter_event-profiling r name (Option.map (function_slot k name) (slot_at _)) _ ∙ h

  pub enters :
      (r : Reading D) (name : List ℕ) (p : SystemProfiler D)
      → p.is_profiling ≡ true
      → profile_function_enter k r name (some p) ≡ some (enter_function k r name p)
  unfolding profile_function_enter
  enters r name p on = ap (λ b. some (if b then enter_function k r name p else p)) on

  pub exits :
      (r : Reading D) (name : List ℕ) (p : SystemProfiler D)
      → p.is_profiling ≡ true
      → profile_function_exit k r name (some p) ≡ some (exit_function k r name p)
  unfolding profile_function_exit
  exits r name p on = ap (λ b. some (if b then exit_function k r name p else p)) on

  pair_stats :
      (r r' : Reading D) (name : List ℕ) (p : SystemProfiler D)
      → r'.self ≡ r.self
      → HasRoom k r.self p
      → (self : ℕ) (other : List ℕ)
      → stats self other (exit_function k r' name (enter_function k r name p)).threads ≡ (
          if (r.self == self) && str_eq name other
          then some (
              measure k
                (k.sub r'.now r.stamp)
                (or_else (new_function k name) (stats r.self name p.threads)))
          else stats self other p.threads)
  pair_stats r r' name p same room self other =
      let p1 = enter_function k r name p in
      let f = or_else (new_function k name) (stats r.self name p.threads) in
      let after = enter_stats r name p room in
      let mine : stats r.self name p1.threads ≡ some f =
        after r.self name ∙ rw (==_refl r.self, str_eq_refl name) refl in
      let left =
        exit_stats k r' name p1 f (subst (λ i. stats i name p1.threads ≡ some f) (sym same) mine)
          self other in
      left
      ∙ ap
          (λ i.
            if (i == self) && str_eq name other
            then some (measure k (k.sub r'.now (enter_time k i name p1.events)) f)
            else stats self other p1.threads)
          same
      ∙ ap
          (λ t.
            if (r.self == self) && str_eq name other
            then some (measure k (k.sub r'.now t) f)
            else stats self other p1.threads)
          (enter_time-enter r name p room)
      ∙ elim (Bool-cases ((r.self == self) && str_eq name other)) [
        | inl key ↦ rw key refl
        | inr apart ↦ rw apart (after self other ∙ rw apart refl)
      ]

  -- One more call of the function under the thread, of this duration, and nothing else.
  unfoldable pub Adds : ℕ → List ℕ → D → SystemProfiler D → SystemProfiler D → Type 0
  Adds self name time p q =
      (i : ℕ) (n : List ℕ)
      → stats i n q.threads ≡ (
          if (self == i) && str_eq name n
          then some (measure k time (or_else (new_function k name) (stats self name p.threads)))
          else stats i n p.threads)

  -- With profiling on and with room in the tables, entering a function and leaving it again adds one
  -- call to the function's record under the calling thread, of the time from the recorded entry to
  -- the reading at the exit; a function without a record starts from an empty one. Every other
  -- record, of another function or of another thread, is as it was.
  pub profile_function_exit-profile_function_enter :
      (r r' : Reading D) (name : List ℕ) (p : SystemProfiler D)
      → p.is_profiling ≡ true
      → r'.self ≡ r.self
      → HasRoom k r.self p
      → Leaves
          (profile_function_exit k r' name (profile_function_enter k r name (some p)))
          (Adds r.self name (k.sub r'.now r.stamp) p)
  unfolding Leaves Adds
  profile_function_exit-profile_function_enter r r' name p on same room =
      subst⁻¹ (λ o. Leaves o (Adds r.self name (k.sub r'.now r.stamp) p))
        (ap (profile_function_exit k r' name) (enters r name p on)
          ∙ exits r' name (enter_function k r name p) (enter_profiling r name p on))
        (pair_stats r r' name p same room)
