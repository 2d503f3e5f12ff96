-- ===== src/Hitop/Input.antt =====
-- The keyboard of the monitor (src/process.c, `handle_input` and the dialogs that it opens).
use hifetch.Common.{
  ℕ, ◌+◌, ◌%◌, Bool, false, not, ◌||◌, List, [], ◌∷◌, Option, some, ◌==◌, if◌then◌else◌, ltb, ltb_ℤ,
  ◌+ℤ◌, ◌-ℤ◌, ℤ, pos, negsuc, at_ℤ, take,
}
use mathlib.Core.Option
use hifetch.Hitop.State.{ProcessList, Monitor, Request, kill, renice}

-- What `getch` answers: a byte, one of the curses keys that the switch names, or another key.
pub data Key : Type 0 where
  byte : ℕ → Key
  key_up key_down key_ppage key_npage key_home key_end key_dc other : Key
  key_f : ℕ → Key

-- One call of `handle_input` reads a key; a dialog may read a second one, or a line.
pub record Input : Type 0 where
  pub key : Key
  pub answer : Key
  pub typed : List ℕ

-- The cases of the switch.
pub data Command : Type 0 where
  quit up down page_up page_down first last refresh sort terminate reverse_order help ask_filter
        clear_filter raise lower nothing :
      Command

unfoldable pub decode_byte : ℕ → Command
decode_byte c =
    if c == b'q' || c == b'Q'
    then quit
    else if c == b'j'
    then up
    else if c == b'k'
    then down
    else if c == b'F'
    then refresh
    else if c == b's' || c == b'S'
    then sort
    else if c == b'x' || c == b'X'
    then terminate
    else if c == b'r' || c == b'R'
    then reverse_order
    else if c == b'h' || c == b'H'
    then help
    else if c == b'f'
    then ask_filter
    else if c == b'c' || c == b'C'
    then clear_filter
    else if c == b'+' || c == b'='
    then raise
    else if c == b'-' || c == b'_'
    then lower
    else nothing

unfoldable pub decode : Key → Command
decode (byte c) = decode_byte c
decode key_up = up
decode key_down = down
decode key_ppage = page_up
decode key_npage = page_down
decode key_home = first
decode key_end = last
decode key_dc = terminate
decode (key_f n) =
    if n == 5 then refresh else if n == 6 then sort else if n == 1 then help else nothing
decode other = nothing

-- `kill_process` refuses a pid that is not positive.
unfoldable pub kill_process : ℤ → List Request → List Request
kill_process pid requests = if ltb_ℤ (pos 0) pid then kill pid ∷ requests else requests

abbrev pub confirms : Key → Bool
confirms (byte c) = c == b'y' || c == b'Y'
confirms _ = false

-- `show_kill_dialog`
unfoldable pub show_kill_dialog : ℤ → Key → List Request → List Request
show_kill_dialog pid answer requests =
    if confirms answer then kill_process pid requests else requests

module _ {D : Type 0} where
  -- `plist->count - 1`
  abbrev pub last_index : ProcessList D → ℤ
  last_index p = pos p.count -ℤ pos 1

  -- The new value of `plist->selected`.
  unfoldable pub move : Command → ProcessList D → ℤ
  move up p = if ltb_ℤ (pos 0) p.selected then p.selected -ℤ pos 1 else p.selected
  move down p = if ltb_ℤ p.selected (last_index p) then p.selected +ℤ pos 1 else p.selected
  move page_up p = if ltb_ℤ (pos 10) p.selected then p.selected -ℤ pos 10 else pos 0
  move page_down p =
      if ltb_ℤ (p.selected +ℤ pos 10) (pos p.count) then p.selected +ℤ pos 10 else last_index p
  move first p = pos 0
  move last p = last_index p
  move _ p = p.selected

  -- The cases for `x`, `+` and `-`: nothing on an empty list, and else a read of the array at
  -- `selected`, which is undefined (`none`) out of range.
  unfoldable pub with_selected : (ℤ → List Request → List Request) → Monitor D → Option (Monitor D)
  with_selected act m =
      if ltb 0 m.plist.count
      then Option.map (λ p. record m { requests = act p.pid m.requests })
          (at_ℤ m.plist.processes m.plist.selected)
      else some m

  abbrev pub with_plist : Monitor D → ProcessList D → Monitor D
  with_plist m p = record m { plist = p }

  unfoldable pub perform : Command → Input → Monitor D → Option (Monitor D)
  perform quit i m = some (record m { running = false })
  perform refresh i m = some m
  perform nothing i m = some m
  perform sort i m = some (with_plist m (record (m.plist) { sort_by = (m.plist.sort_by + 1) % 5 }))
  perform reverse_order i m =
      some (with_plist m (record (m.plist) { reverse = not m.plist.reverse }))
  -- The help flag goes up, a key is read, and it goes down again.
  perform help i m =
      some (record m { show_help = if not m.show_help then false else not m.show_help })
  perform ask_filter i m = some (with_plist m (record (m.plist) { filter = take 63 i.typed }))
  perform clear_filter i m = some (with_plist m (record (m.plist) { filter = [] }))
  perform terminate i m = with_selected (λ pid. show_kill_dialog pid i.answer) m
  perform raise i m = with_selected (λ pid requests. renice pid (negsuc 0) ∷ requests) m
  perform lower i m = with_selected (λ pid requests. renice pid (pos 1) ∷ requests) m
  perform c i m = some (with_plist m (record (m.plist) { selected = move c m.plist }))

  unfoldable pub handle_input : Monitor D → Input → Option (Monitor D)
  handle_input m i = perform (decode i.key) i m
