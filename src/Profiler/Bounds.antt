-- ===== src/Profiler/Bounds.antt =====
-- The bounds of the profiler's arrays (src/profiler.c).
use hifetch.Common.{
  All, Real, ℕ, zero, suc, ◌+◌, ◌≤◌, ◌≡◌, refl, ap, subst⁻¹, inl, inr, Bool, true, false, List, [],
  ◌∷◌, Option, none, some, arith, if◌then◌else◌, leb, ltb, ltb→lt, length, length-append,
  Bool-cases, Option-cases,
}
use hifetch.Profiler.Calls.{
  new_event, add_profile_event, new_thread, new_function, enter_event, function_slot,
  enter_function, exit_found, exit_function, measure, enter_time,
}
use hifetch.Profiler.Slots.{find_index, slot_at, upsert, modify, modify-cons}
use hifetch.Profiler.State.{
  FunctionProfile, EventType, enter, exit, ThreadProfile, SystemProfiler, Reading, is_thread,
  is_named, with_functions,
}
use hifetch.Profiler.Stats.{record_in}
use hifetch.Profiler.Tables.{enter-threads}
use mathlib.Core.Option

module _ {A : Type 0} where
  length-upsert :
      (p : A → Bool) (room : Bool) (fresh : A) (f : A → A) (xs : List A)
      → length (upsert p room fresh f xs) ≤ length xs + (if room then 1 else 0)
  unfolding upsert
  length-upsert p true fresh f [] = omega arith
  length-upsert p false fresh f [] = omega arith
  length-upsert p room fresh f (x ∷ xs) = elim (Bool-cases (p x)) [
    | inl e ↦ rw e (omega arith)
    | inr e ↦ rw e (omega (arith, length-upsert p room fresh f xs))
  ]

  upsert_fits :
      (p : A → Bool) (max : ℕ) (fresh : A) (f : A → A) (xs : List A)
      → length xs ≤ max
      → length (upsert p (ltb (length xs) max) fresh f xs) ≤ max
  upsert_fits p max fresh f xs h = elim (Bool-cases (ltb (length xs) max)) [
    | inl room ↦
        let longer = length-upsert p true fresh f xs in
        rw room (omega (arith, ltb→lt (length xs) max room, longer))
    | inr full ↦ let longer = length-upsert p false fresh f xs in rw full (omega (arith, longer))
  ]

  upsert-All :
      (P : A → Type 0) (p : A → Bool) (room : Bool) (fresh : A) (f : A → A)
      → P (f fresh)
      → ((x : A) → P x → P (f x))
      → (xs : List A) → All P xs
      → All P (upsert p room fresh f xs)
  unfolding upsert
  upsert-All P p true fresh f new keep [] h = (new, tt)
  upsert-All P p false fresh f new keep [] h = tt
  upsert-All P p room fresh f new keep (x ∷ xs) (px, h) = elim (Bool-cases (p x)) [
    | inl e ↦ rw e (keep x px, h)
    | inr e ↦ rw e (px, upsert-All P p room fresh f new keep xs h)
  ]

  pub modify-All :
      (P : A → Type 0) (f : A → A)
      → ((x : A) → P x → P (f x))
      → (i : ℕ) (xs : List A) → All P xs
      → All P (modify i f xs) × (length (modify i f xs) ≡ length xs)
  unfolding modify
  modify-All P f keep i [] h = (tt, refl)
  modify-All P f keep zero (x ∷ xs) (px, h) = ((keep x px, h), refl)
  modify-All P f keep (suc i) (x ∷ xs) (px, h) =
      let (every, same) = modify-All P f keep i xs h in
      rw (modify-cons i f x xs) ((px, every), ap suc same)

module _ {D : Type 0} where
  abbrev pub Few : ThreadProfile D → Type 0
  Few t = length t.functions ≤ 512

  -- No array is past its end.
  pub record IsBounded (p : SystemProfiler D) : Type 0 where
    pub few_events : length p.events ≤ 10000
    pub few_threads : length p.threads ≤ 1024
    pub few_functions : All Few p.threads

  unfoldable pub Within : Option (SystemProfiler D) → Type 0
  Within none = Unit {0}
  Within (some p) = IsBounded p

module _ {D : Type 0} (k : Real D) where
  pub event-IsBounded :
      (r : Reading D) (event_type : EventType) (name : List ℕ) (d : D) (p : SystemProfiler D)
      → IsBounded p
      → IsBounded (add_profile_event k r event_type name d p)
  unfolding add_profile_event
  event-IsBounded r event_type name d p b = elim (Bool-cases (leb 10000 (length p.events))) [
    | inl full ↦ rw full b
    | inr room ↦ rw room (record {
      few_events =
          ground (arith, room, length-append p.events (new_event k r event_type name d ∷ []));
      few_threads = b.few_threads;
      few_functions = b.few_functions;
    })
  ]

  enter_event-length :
      (r : Reading D) (name : List ℕ) (o : Option (Option ℕ × List (FunctionProfile D)))
      (p : SystemProfiler D)
      → length p.events ≤ 10000
      → length (enter_event k r name o p).events ≤ 10000
  unfolding enter_event add_profile_event
  enter_event-length r name (some (some j, fs)) p h =
      elim (Bool-cases (leb 10000 (length p.events))) [
        | inl full ↦ rw (full, add_profile_event) h
        | inr room ↦
            rw (room, add_profile_event)
              (ground (arith, room, length-append p.events (new_event k r enter name k.zero ∷ [])))
      ]
  enter_event-length r name (some (none, fs)) p h = h
  enter_event-length r name none p h = h

  pub enter-IsBounded :
      (r : Reading D) (name : List ℕ) (p : SystemProfiler D)
      → IsBounded p
      → IsBounded (enter_function k r name p)
  unfolding enter_function record_in new_thread function_slot
  enter-IsBounded r name p b = record {
    few_events =
        enter_event-length r name (Option.map (function_slot k name) (slot_at _)) _ b.few_events;
    few_threads =
        subst⁻¹ (λ ts. length ts ≤ 1024) (enter-threads k r name p)
          (upsert_fits (is_thread r.self) 1024 (new_thread k r (length p.threads)) _ p.threads
            b.few_threads);
    few_functions = subst⁻¹ (All Few) (enter-threads k r name p) (
        upsert-All Few (is_thread r.self) _ (new_thread k r (length p.threads)) _
          (upsert_fits (is_named name) 512 (new_function k name) (λ f. f) [] (omega arith))
          (λ t few. upsert_fits (is_named name) 512 (new_function k name) (λ f. f) t.functions few)
          p.threads b.few_functions);
  }

  exit_found-IsBounded :
      (r : Reading D) (name : List ℕ) (p : SystemProfiler D) (i : ℕ) (o : Option (Option ℕ))
      → IsBounded p
      → IsBounded (exit_found k r name p i o)
  unfolding exit_found
  exit_found-IsBounded r name p i (some (some j)) b =
      let time = k.sub r.now (enter_time k r.self name p.events) in
      let (every, same) =
        modify-All Few (λ t. with_functions t (modify j (measure k time) t.functions))
          (λ t few. rw (modify-length j time t.functions) few) i p.threads b.few_functions in
      event-IsBounded r exit name time _ (record {
        few_events = b.few_events;
        few_threads = rw same b.few_threads;
        few_functions = every;
      })
    where
      anything : (fs : List (FunctionProfile D)) → All (λ f. Unit {0}) fs
      anything [] = tt
      anything (f ∷ fs) = (tt, anything fs)

      modify-length :
          (j : ℕ) (time : D) (fs : List (FunctionProfile D))
          → length (modify j (measure k time) fs) ≡ length fs
      modify-length j time fs =
          (modify-All (λ f. Unit {0}) (measure k time) (λ f u. tt) j fs (anything fs)).1
  exit_found-IsBounded r name p i (some none) b = b
  exit_found-IsBounded r name p i none b = b

  pub exit-IsBounded :
      (r : Reading D) (name : List ℕ) (p : SystemProfiler D)
      → IsBounded p
      → IsBounded (exit_function k r name p)
  unfolding exit_function
  exit-IsBounded r name p b = elim (Option-cases (find_index (is_thread r.self) p.threads)) [
    | inl e ↦ rw (e, exit_function) b
    | inr (i, e) ↦ rw (e, exit_function) (exit_found-IsBounded r name p i _ b)
  ]
