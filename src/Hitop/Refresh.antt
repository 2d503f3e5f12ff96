-- ===== src/Hitop/Refresh.antt =====
-- The refresh of the process list (src/process.c, `compare_processes` and `get_processes`). What
-- `/proc` holds is the list of the entries read, and `strcmp`, `qsort` and the order of `double`
-- are parameters.
use hifetch.Common.{
  ℕ, zero, suc, Bool, ◌||◌, List, ◌++◌, Option, none, some, ◌==◌, if◌then◌else◌, ℤ, pos, negsuc,
  ◌-ℤ◌, get_elem?, length, take, drop, set, strstr, is_some,
}
use hifetch.Hitop.State.{Process, ProcessList}
use mathlib.Core.Option

module _ {D : Type 0} where
  -- `? 1 : ? -1 : 0`
  abbrev pub three_way : (D → D → Bool) → D → D → ℤ
  three_way gt a b = if gt a b then pos 1 else if gt b a then negsuc 0 else pos 0

  -- The difference of two pids is that of numbers: pids are not negative.
  unfoldable pub compare_by : (D → D → Bool) → (List ℕ → List ℕ → ℤ) → ℕ → Process D → Process D → ℤ
  compare_by gt strcmp sort_by a b =
      if sort_by == 0
      then a.pid -ℤ b.pid
      else if sort_by == 1
      then strcmp a.user b.user
      else if sort_by == 2
      then three_way gt a.cpu b.cpu
      else if sort_by == 3
      then three_way gt a.mem b.mem
      else if sort_by == 4
      then strcmp a.command b.command
      else pos 0

  -- `plist` is the global that the comparison reads.
  unfoldable pub compare_processes :
      (D → D → Bool) → (List ℕ → List ℕ → ℤ) → ProcessList D → Process D → Process D → ℤ
  compare_processes gt strcmp plist a b =
      let result = compare_by gt strcmp plist.sort_by a b in
      if plist.reverse then pos 0 -ℤ result else result

  -- The filter's text stands in the command or in the user's name.
  unfoldable pub matches : List ℕ → Process D → Bool
  matches text p = is_some (strstr p.command text) || is_some (strstr p.user text)

module _ {ℓ} {A : Type ℓ} where
  -- The loop that moves the entries to keep to the front: `n` rounds are left, of which the first
  -- looks at index `j`; `k` is `filtered_count`.
  unfoldable pub compact : (A → Bool) → ℕ → ℕ → ℕ → List A → Option (List A × ℕ)
  compact keep zero j k xs = some (xs, k)
  compact keep (suc n) j k xs = elim (get_elem? xs j) [
    | some x ↦
        compact keep n (suc j) (if keep x then suc k else k)
          (if keep x then (if j == k then xs else set xs k x) else xs)
    | none ↦ none
  ]

module _ {D : Type 0} where
  -- The array and the count after the filter.
  unfoldable pub filtered : List ℕ → ℕ → List (Process D) → Option (List (Process D) × ℕ)
  filtered text n xs = if length text == 0 then some (xs, n) else compact (matches text) n 0 0 xs

  -- `qsort` on the first `count` entries.
  abbrev pub sorted :
      ((Process D → Process D → ℤ) → List (Process D) → List (Process D))
      → (Process D → Process D → ℤ)
      → ProcessList D
      → List (Process D) × ℕ
      → ProcessList D
  sorted qsort order plist (xs, n) = record plist {
    processes = qsort order (take n xs) ++ drop n xs;
    count = n;
  }

  -- The entries that the read loop stored overwrite the front of the array; `none` where `/proc`
  -- cannot be opened.
  unfoldable pub get_processes :
      (D → D → Bool)
      → (List ℕ → List ℕ → ℤ)
      → ((Process D → Process D → ℤ) → List (Process D) → List (Process D))
      → Option (List (Process D))
      → ProcessList D
      → Option (ProcessList D)
  get_processes gt strcmp qsort none plist = some plist
  get_processes gt strcmp qsort (some entries) plist =
      Option.map (sorted qsort (compare_processes gt strcmp plist) plist)
        (filtered plist.filter (length entries) (entries ++ drop (length entries) plist.processes))
