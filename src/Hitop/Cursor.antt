-- ===== src/Hitop/Cursor.antt =====
-- What the keyboard does to the monitor's state (src/process.c, `handle_input`).
use hifetch.Common.{
  ℕ, zero, suc, ◌≤◌, ◌<◌, ◌≡◌, refl, ◌⊎◌, inl, inr, true, false, List, [], ◌∷◌, some, arith, ltb,
  ltb_ℤ, lt→ltb, ℤ, pos, negsuc, ◌≤ℤ◌, ◌<ℤ◌, at_ℤ, get_elem?, length, Bool-cases, Option-cases, ◌∙◌,
}
use hifetch.Hitop.Input.{
  Key, Input, Command, quit, up, down, page_up, page_down, first, last, refresh, sort, terminate,
  reverse_order, help, ask_filter, clear_filter, raise, lower, nothing, decode, move, kill_process,
  confirms, show_kill_dialog, with_selected, with_plist, perform, handle_input,
}
use hifetch.Hitop.State.{Process, ProcessList, Monitor, Request, kill, renice}

pub at_some :
    {A : Type 0} (xs : List A) (n : ℕ) → n < length xs → (a : A) × (get_elem? xs n ≡ some a)
at_some [] n h = absurd (omega arith)
at_some (x ∷ xs) zero h = (x, refl)
at_some (x ∷ xs) (suc n) h = at_some xs n (omega arith)

at_selected :
    {A : Type 0} (xs : List A) (i : ℤ)
    → pos 0 ≤ℤ i
    → i <ℤ pos (length xs)
    → (a : A) × (at_ℤ xs i ≡ some a)
at_selected xs (pos n) low high = at_some xs n (omega arith)
at_selected xs (negsuc n) low high = absurd (omega arith)

dialog_requests :
    (pid : ℤ) (answer : Key) (requests : List Request)
    → (show_kill_dialog pid answer requests ≡ requests)
      ⊎ ((show_kill_dialog pid answer requests ≡ kill pid ∷ requests)
          × (confirms answer ≡ true)
          × (pos 0 <ℤ pid))
unfolding show_kill_dialog kill_process
dialog_requests pid answer requests = elim (Bool-cases (confirms answer)) [
  | inl y ↦ elim (Bool-cases (ltb_ℤ (pos 0) pid)) [
    | inl positive ↦ inr (rw (y, positive), y, ground arith)
    | inr other ↦ inl (rw (y, other))
  ]
  | inr n ↦ inl (rw n)
]

module _ {D : Type 0} where
  -- The cursor stands on a process that is shown, and the sort key is one of the first five.
  pub record IsValid (p : ProcessList D) : Type 0 where
    pub low : pos 0 ≤ℤ p.selected
    pub high : p.selected <ℤ pos p.count
    pub stored : p.count ≤ length p.processes
    pub sort_key : p.sort_by < 5

  pub record Keeps (m m' : Monitor D) : Type 0 where
    pub processes : m'.plist.processes ≡ m.plist.processes
    pub count : m'.plist.count ≡ m.plist.count
    pub valid : IsValid m'.plist
    pub no_help : m'.show_help ≡ false

  move_bounds :
      (c : Command) (p : ProcessList D)
      → IsValid p
      → (pos 0 ≤ℤ move c p) × (move c p <ℤ pos p.count)
  unfolding move
  move_bounds up p v = ground arith
  move_bounds down p v = ground arith
  move_bounds page_up p v = ground arith
  move_bounds page_down p v = ground arith
  move_bounds first p v = ground arith
  move_bounds last p v = ground arith
  move_bounds _ p v = (v.low, v.high)

  moved :
      (c : Command) (m : Monitor D)
      → IsValid m.plist
      → m.show_help ≡ false
      → Keeps m (with_plist m (record (m.plist) { selected = move c m.plist }))
  moved c m v h =
      let (low, high) = move_bounds c m.plist v in
      record {
        processes = refl;
        count = refl;
        valid = record { low = low; high = high; stored = v.stored; sort_key = v.sort_key };
        no_help = h;
      }

  with_selected_defined :
      (act : ℤ → List Request → List Request) (m : Monitor D)
      → IsValid m.plist
      → m.show_help ≡ false
      → (m' : Monitor D) × (with_selected act m ≡ some m') × Keeps m m'
  unfolding with_selected
  with_selected_defined act m v h =
      let some_shown : ltb 0 m.plist.count ≡ true =
        lt→ltb 0 m.plist.count (omega (arith, v.low, v.high)) in
      let (p, at) =
        at_selected m.plist.processes m.plist.selected v.low (omega (arith, v.high, v.stored)) in
      (
        record m { requests = act p.pid m.requests },
        rw (some_shown, at),
        record { processes = refl; count = refl; valid = v; no_help = h },
      )

  perform_defined :
      (c : Command) (i : Input) (m : Monitor D)
      → IsValid m.plist
      → m.show_help ≡ false
      → (m' : Monitor D) × (perform c i m ≡ some m') × Keeps m m'
  unfolding perform
  perform_defined quit i m v h =
      (_, refl, record { processes = refl; count = refl; valid = v; no_help = h })
  perform_defined refresh i m v h =
      (_, refl, record { processes = refl; count = refl; valid = v; no_help = h })
  perform_defined nothing i m v h =
      (_, refl, record { processes = refl; count = refl; valid = v; no_help = h })
  perform_defined sort i m v h = (
    _,
    refl,
    record {
      processes = refl;
      count = refl;
      valid = record { low = v.low; high = v.high; stored = v.stored; sort_key = omega arith };
      no_help = h;
    },
  )
  perform_defined reverse_order i m v h = (
    _,
    refl,
    record {
      processes = refl;
      count = refl;
      valid = record { low = v.low; high = v.high; stored = v.stored; sort_key = v.sort_key };
      no_help = h;
    },
  )
  perform_defined help i m v h =
      (_, refl, record { processes = refl; count = refl; valid = v; no_help = rw h })
  perform_defined ask_filter i m v h = (
    _,
    refl,
    record {
      processes = refl;
      count = refl;
      valid = record { low = v.low; high = v.high; stored = v.stored; sort_key = v.sort_key };
      no_help = h;
    },
  )
  perform_defined clear_filter i m v h = (
    _,
    refl,
    record {
      processes = refl;
      count = refl;
      valid = record { low = v.low; high = v.high; stored = v.stored; sort_key = v.sort_key };
      no_help = h;
    },
  )
  perform_defined terminate i m v h = with_selected_defined _ m v h
  perform_defined raise i m v h = with_selected_defined _ m v h
  perform_defined lower i m v h = with_selected_defined _ m v h
  perform_defined up i m v h = (_, refl, moved up m v h)
  perform_defined down i m v h = (_, refl, moved down m v h)
  perform_defined page_up i m v h = (_, refl, moved page_up m v h)
  perform_defined page_down i m v h = (_, refl, moved page_down m v h)
  perform_defined first i m v h = (_, refl, moved first m v h)
  perform_defined last i m v h = (_, refl, moved last m v h)

  -- While the cursor stands on a process that is shown, every input is handled with no read outside
  -- the array; the processes and their count stay, the cursor still stands on a process that is
  -- shown, the sort key stays below 5, and the help flag is down again when the handler returns.
  pub handle_input-Keeps :
      (m : Monitor D) (i : Input)
      → IsValid m.plist
      → m.show_help ≡ false
      → (m' : Monitor D) × (handle_input m i ≡ some m') × Keeps m m'
  unfolding handle_input
  handle_input-Keeps m i v h = perform_defined (decode i.key) i m v h

  with_selected_requests :
      (act : ℤ → List Request → List Request) (m m' : Monitor D)
      → with_selected act m ≡ some m'
      → (m'.requests ≡ m.requests)
        ⊎ ((p : Process D) × (at_ℤ m.plist.processes m.plist.selected ≡ some p)
            × (m'.requests ≡ act p.pid m.requests))
  unfolding with_selected
  with_selected_requests act m m' e = elim (Bool-cases (ltb 0 m.plist.count)) [
    | inl shown ↦ elim (Option-cases (at_ℤ m.plist.processes m.plist.selected)) [
      | inl out ↦ ground arith
      | inr (p, at) ↦ inr (p, at, ground arith)
    ]
    | inr empty ↦ inl (ground arith)
  ]

  perform_requests :
      (c : Command) (i : Input) (m m' : Monitor D)
      → perform c i m ≡ some m'
      → (m'.requests ≡ m.requests)
        ⊎ ((p : Process D) × (at_ℤ m.plist.processes m.plist.selected ≡ some p)
            × (((m'.requests ≡ kill p.pid ∷ m.requests)
                  × (confirms i.answer ≡ true)
                  × (pos 0 <ℤ p.pid))
                ⊎ (m'.requests ≡ renice p.pid (negsuc 0) ∷ m.requests)
                ⊎ (m'.requests ≡ renice p.pid (pos 1) ∷ m.requests)))
  unfolding perform
  perform_requests terminate i m m' e = elim (with_selected_requests _ m m' e) [
    | inl same ↦ inl same
    | inr (p, at, acted) ↦ elim (dialog_requests p.pid i.answer m.requests) [
      | inl same ↦ inl (acted ∙ same)
      | inr (killed, y, positive) ↦ inr (p, at, inl (acted ∙ killed, y, positive))
    ]
  ]
  perform_requests raise i m m' e = elim (with_selected_requests _ m m' e) [
    | inl same ↦ inl same
    | inr (p, at, acted) ↦ inr (p, at, inr (inl acted))
  ]
  perform_requests lower i m m' e = elim (with_selected_requests _ m m' e) [
    | inl same ↦ inl same
    | inr (p, at, acted) ↦ inr (p, at, inr (inr acted))
  ]
  perform_requests _ i m m' e = inl (ground arith)

  -- Requests come only from the process under the cursor: a kill of a positive pid that `y` or `Y`
  -- confirmed, or a change of its priority by one.
  pub handle_input-requests :
      (m m' : Monitor D) (i : Input)
      → handle_input m i ≡ some m'
      → (m'.requests ≡ m.requests)
        ⊎ ((p : Process D) × (at_ℤ m.plist.processes m.plist.selected ≡ some p)
            × (((m'.requests ≡ kill p.pid ∷ m.requests)
                  × (confirms i.answer ≡ true)
                  × (pos 0 <ℤ p.pid))
                ⊎ (m'.requests ≡ renice p.pid (negsuc 0) ∷ m.requests)
                ⊎ (m'.requests ≡ renice p.pid (pos 1) ∷ m.requests)))
  unfolding handle_input
  handle_input-requests m m' i e = perform_requests (decode i.key) i m m' e
