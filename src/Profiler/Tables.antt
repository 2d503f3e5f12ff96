-- ===== src/Profiler/Tables.antt =====
-- The tables and the events after a call (src/profiler.c, `profile_function_enter` and
-- `profile_function_exit`).
use hifetch.Common.{
  Real, ℕ, ◌≡◌, ◌<◌, refl, sym, ap, subst, ◌∙◌, inl, inr, false, ◌&&◌, List, [], ◌∷◌, ◌++◌, Option,
  none, some, arith, ◌==◌, if◌then◌else◌, leb, ltb, length, str_eq, Bool-cases, Option-cases,
}
use hifetch.Profiler.Slots.{
  slot, modify, modify_slot, slot_at, upsert, first, or_else, modify_slot-slot, slot-upsert,
  slot_given, slot_at-slot, find_index-first, modify_congr, modify_found,
}
use hifetch.Profiler.State.{
  FunctionProfile, EventType, enter, exit, ThreadProfile, SystemProfiler, Reading, max_threads,
  max_samples, max_functions, is_thread, is_named, with_functions,
}
use hifetch.Profiler.Stats.{
  stats, functions_of, record_in, stats-record_other, stats-record_found, stats_if,
}
use hifetch.Profiler.Calls.{
  new_event, add_profile_event, new_thread, new_function, function_slot, enter_event,
  enter_function, exit_found, enter_time, measure, exit_function,
}
use mathlib.Core.Option
use mathlib.Core.Path.{fun_ext}

module _ {D : Type 0} (k : Real D) where
  pub event-threads :
      (r : Reading D) (event_type : EventType) (name : List ℕ) (d : D) (p : SystemProfiler D)
      → (add_profile_event k r event_type name d p).threads ≡ p.threads
  unfolding add_profile_event
  event-threads r event_type name d p = elim (Bool-cases (leb max_samples (length p.events))) [
    | inl full ↦ rw full refl
    | inr room ↦ rw room refl
  ]

  enter_event-threads :
      (r : Reading D) (name : List ℕ) (o : Option (Option ℕ × List (FunctionProfile D)))
      (p : SystemProfiler D)
      → (enter_event k r name o p).threads ≡ p.threads
  unfolding enter_event
  enter_event-threads r name (some (some j, fs)) p = event-threads r enter name k.zero p
  enter_event-threads r name (some (none, fs)) p = refl
  enter_event-threads r name none p = refl

  -- The tables after `profile_function_enter`.
  pub enter-threads :
      (r : Reading D) (name : List ℕ) (p : SystemProfiler D)
      → (enter_function k r name p).threads
        ≡ record_in r.self name
            (ltb (length p.threads) max_threads)
            (new_thread k r (length p.threads))
            (λ t. ltb (length t.functions) max_functions)
            (new_function k name)
            (λ f. f)
            p.threads
  unfolding enter_function function_slot record_in
  enter-threads r name p =
      let found =
        slot (is_thread r.self) max_threads (new_thread k r (length p.threads)) p.threads in
      let pointwise = fun_ext (λ t.
        ap (with_functions t)
          (slot-upsert (is_named name) max_functions (new_function k name) t.functions)) in
      enter_event-threads r name (Option.map (function_slot k name) (slot_at found)) _
      ∙ modify_slot-slot (is_thread r.self) max_threads (new_thread k r (length p.threads))
          (λ t. with_functions t (function_slot k name t).1) p.threads
      ∙ ap
          (λ g.
            upsert (is_thread r.self) (ltb (length p.threads) max_threads)
              (new_thread k r (length p.threads)) g p.threads)
          pointwise

  event-events :
      (r : Reading D) (event_type : EventType) (name : List ℕ) (d : D) (p : SystemProfiler D)
      → length p.events < 10000
      → (add_profile_event k r event_type name d p).events
        ≡ p.events ++ new_event k r event_type name d ∷ []
  unfolding add_profile_event
  event-events r event_type name d p h =
      let room : leb max_samples (length p.events) ≡ false = ground (arith, h) in
      rw (room, add_profile_event) refl

  -- There is room for the thread, for the function and for the event.
  pub record HasRoom (self : ℕ) (p : SystemProfiler D) : Type 0 where
    pub for_event : length p.events < 10000
    pub for_thread : length p.threads < 1024
    pub for_function : length (functions_of (first (is_thread self) p.threads)) < 512

  pub functions_new :
      (r : Reading D) (n : ℕ) (o : Option (ThreadProfile D))
      → (or_else (new_thread k r n) o).functions ≡ functions_of o
  unfolding functions_of new_thread
  functions_new r n none = refl
  functions_new r n (some t) = refl

  enter_event-events :
      (r : Reading D) (name : List ℕ) (found : Option ℕ × List (FunctionProfile D)) (j : ℕ)
      → found.0 ≡ some j
      → (p : SystemProfiler D) → length p.events < 10000
      → (enter_event k r name (some found) p).events
        ≡ p.events ++ new_event k r enter name k.zero ∷ []
  unfolding enter_event
  enter_event-events r name (some i, fs) j e p h = event-events r enter name k.zero p h
  enter_event-events r name (none, fs) j e p h = cc

  pub enter-events :
      (r : Reading D) (name : List ℕ) (p : SystemProfiler D)
      → HasRoom r.self p
      → (enter_function k r name p).events ≡ p.events ++ new_event k r enter name k.zero ∷ []
  unfolding enter_function function_slot
  enter-events r name p room =
      let t0 = new_thread k r (length p.threads) in
      let t = or_else t0 (first (is_thread r.self) p.threads) in
      let there = slot_at-slot (is_thread r.self) max_threads t0 p.threads room.for_thread in
      let few : length t.functions < max_functions =
        subst (λ fs. length fs < max_functions)
          (sym (functions_new r (length p.threads) (first (is_thread r.self) p.threads)))
          room.for_function in
      let (j, given) =
        slot_given (is_named name) max_functions (new_function k name) t.functions few in
      let opened =
        ap
          (λ o.
            (enter_event k r name (Option.map (function_slot k name) o) (record p {
              threads =
                  modify_slot (λ t. with_functions t (function_slot k name t).1)
                    (slot (is_thread r.self) max_threads t0 p.threads);
            })).events)
          there in
      opened ∙ enter_event-events r name (function_slot k name t) j given _ room.for_event

  -- `profile_function_exit` for a function that has an entry.
  pub exit_function_lem :
      (r : Reading D) (name : List ℕ) (p : SystemProfiler D) (f : FunctionProfile D)
      → stats r.self name p.threads ≡ some f
      → let time = k.sub r.now (enter_time k r.self name p.events) in
        exit_function k r name p
        ≡ add_profile_event k r exit name time (record p {
          threads =
              record_in r.self name false
                (new_thread k r 0)
                (λ _. false)
                (new_function k name)
                (measure k time)
                p.threads;
        })
  unfolding stats functions_of first exit_function exit_found record_in
  exit_function_lem r name p f h = elim (Option-cases (first (is_thread r.self) p.threads)) [
    | inl e ↦
        let nothing : first (is_named name) [] ≡ some f =
          subst (λ o. first (is_named name) (functions_of o) ≡ some f) e h in
        cc
    | inr (t, e) ↦
        let there : first (is_named name) t.functions ≡ some f =
          subst (λ o. first (is_named name) (functions_of o) ≡ some f) e h in
        let (i, found, at) = find_index-first (is_thread r.self) p.threads t e in
        let (j, found', at') = find_index-first (is_named name) t.functions f there in
        let time = k.sub r.now (enter_time k r.self name p.events) in
        let inner =
          modify_found (is_named name) false (new_function k name) (measure k time) t.functions j
            found' in
        let outer =
          modify_congr (λ t. with_functions t (modify j (measure k time) t.functions))
            (λ t.
              with_functions t
                (upsert (is_named name) false (new_function k name) (measure k time) t.functions))
            p.threads i t at (ap (with_functions t) inner)
          ∙ modify_found (is_thread r.self) false (new_thread k r 0) _ p.threads i found in
        rw (found, exit_function)
          (rw (at, found')
            (ap (λ ts. add_profile_event k r exit name time (record p { threads = ts })) outer))
  ]

  pub exit_stats :
      (r : Reading D) (name : List ℕ) (p : SystemProfiler D) (f : FunctionProfile D)
      → stats r.self name p.threads ≡ some f
      → (self' : ℕ) (name' : List ℕ)
      → stats self' name' (exit_function k r name p).threads ≡ (
          if (r.self == self') && str_eq name name'
          then some (measure k (k.sub r.now (enter_time k r.self name p.events)) f)
          else stats self' name' p.threads)
  unfolding measure new_thread new_function
  exit_stats r name p f h self' name' =
      stats_if r.self name p.threads (exit_function k r name p).threads (some (measure k time f))
        (after r.self name
          ∙ stats-record_found r.self name false (new_thread k r 0) (λ _. false)
              (new_function k name) (measure k time) refl refl refl (λ f. refl) p.threads f h)
        (λ i n other.
          after i n
          ∙ stats-record_other r.self name false (new_thread k r 0) (λ _. false)
              (new_function k name) (measure k time) refl refl refl (λ f. refl) p.threads i n other)
        self' name'
    where
      time : D
      time = k.sub r.now (enter_time k r.self name p.events)

      after :
          (i : ℕ) (n : List ℕ)
          → stats i n (exit_function k r name p).threads
            ≡ stats i n (
                record_in r.self name false
                  (new_thread k r 0)
                  (λ _. false)
                  (new_function k name)
                  (measure k time)
                  p.threads)
      after i n =
          ap (λ q. stats i n q.threads) (exit_function_lem r name p f h)
          ∙ ap (stats i n) (event-threads r exit name time _)
