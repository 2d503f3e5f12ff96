-- ===== src/Hitop/Stale.antt =====
-- A cursor that a refresh leaves out of range (src/process.c, `handle_input` and `get_processes`).
use hifetch.Common.{
  ℕ, ◌<◌, ◌≤◌, ◌≡◌, refl, List, none, some, arith, lt→ltb, ℤ, negsuc, length, filter, Bool,
}
use hifetch.Hitop.Filter.{get_processes-filters}
use hifetch.Hitop.Input.{
  Input, decode, last, terminate, perform, move, with_plist, with_selected, handle_input,
}
use hifetch.Hitop.Refresh.{matches, get_processes}
use hifetch.Hitop.State.{Process, ProcessList, Monitor}
use mathlib.Core.List.{Perm}

module _ {D : Type 0} where
  out_of_range :
      (m : Monitor D) (j : Input)
      → decode j.key ≡ terminate
      → 0 < m.plist.count
      → m.plist.selected ≡ negsuc 0
      → handle_input m j ≡ none
  unfolding handle_input perform with_selected
  out_of_range m j key shown at = rw (key, lt→ltb 0 m.plist.count shown, at) refl

  -- The last-process key on an empty list puts the cursor on index -1, where a refresh leaves it; if
  -- the refresh finds a process to show, the kill key then reads the array at index -1.
  pub handle_input-end_on_empty :
      (gt : D → D → Bool) (strcmp : List ℕ → List ℕ → ℤ)
      (qsort : (Process D → Process D → ℤ) → List (Process D) → List (Process D))
      → ((order : Process D → Process D → ℤ) (l : List (Process D))
          → length (qsort order l) ≡ length l)
      → ((order : Process D → Process D → ℤ) (l : List (Process D)) → Perm (qsort order l) l)
      → (m : Monitor D) (entries : List (Process D)) (i j : Input) → m.plist.count ≡ 0
      → length entries ≤ length m.plist.processes
      → 0 < length (filter (matches m.plist.filter) entries)
      → decode i.key ≡ last
      → decode j.key ≡ terminate
      → (m' : Monitor D) × (plist' : ProcessList D) × (handle_input m i ≡ some m')
        × (get_processes gt strcmp qsort (some entries) m'.plist ≡ some plist')
        × (handle_input (with_plist m' plist') j ≡ none)
  unfolding handle_input perform move
  handle_input-end_on_empty gt strcmp qsort same_length permutes m entries i j empty fits found
        i_last j_kill =
      let m' = with_plist m (record (m.plist) { selected = negsuc 0 }) in
      let (plist', run, _, count, _, at) =
        get_processes-filters gt strcmp qsort same_length permutes entries m'.plist fits in
      (
        m',
        plist',
        rw (i_last, empty) refl,
        run,
        out_of_range (with_plist m' plist') j j_kill (omega (arith, count, found)) at,
      )
