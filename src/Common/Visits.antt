-- ===== src/Common/Visits.antt =====
-- What the loop `visit` that fills an array leaves in it.
use Prim.Native.Nat.{ℕ, suc, ◌+◌, ◌-◌, ◌<◌}
use mathlib.Core.Path.{◌≡◌, refl, sym, ap, ◌∙◌}
use mathlib.Core.Logic.{inl, inr}
use mathlib.Core.Bool.{Bool, true, false}
use mathlib.Core.Option.{Option, none, some}
use mathlib.Core.List.{List, [], ◌∷◌, ◌++◌, map, map-append, append-nil, append_assoc}
use native.Mathlib.Omega.{arith}
use hifetch.Common.Lists.{take, get_or}
use hifetch.Common.Tests.{ltb, if◌then◌else◌, ltb→lt, lt→ltb, Bool-cases}
use hifetch.Common.Tables.{
  Table, write, visit, used, IsWithin, write-IsWithin, take-set, take_next, take-nil,
}

-- A value that is there before a list.
abbrev pub cons_some : {C : Type 0} → Option C → List C → List C
cons_some none cs = cs
cons_some (some c) cs = c ∷ cs

-- What the entries give in their order, with the state that goes along.
abbrev pub collect : {B S C : Type 0} → (B → S → Option C) → (B → S → S) → List B → S → List C
collect wanted next [] s = []
collect wanted next (entry ∷ entries) s =
    cons_some (wanted entry s) (collect wanted next entries (next entry s))

-- What the entries give, where the state plays no part.
abbrev pub pick : {B C : Type 0} → (B → Option C) → List B → List C
pick wanted [] = []
pick wanted (entry ∷ entries) = cons_some (wanted entry) (pick wanted entries)

pub collect-pick :
    {B S C : Type 0} (wanted : B → Option C) (next : B → S → S) (entries : List B) (s : S)
    → collect (λ entry s'. wanted entry) next entries s ≡ pick wanted entries
collect-pick wanted next [] s = refl
collect-pick wanted next (entry ∷ entries) s =
    ap (cons_some (wanted entry)) (collect-pick wanted next entries (next entry s))

-- The state after all entries, and how many of them count.
abbrev pub after_all : {B S : Type 0} → (B → S → S) → List B → S → S
after_all next [] s = s
after_all next (entry ∷ entries) s = after_all next entries (next entry s)

abbrev pub how_many : {B S : Type 0} → (B → S → Bool) → (B → S → S) → List B → S → ℕ
how_many counts next [] s = 0
how_many counts next (entry ∷ entries) s =
    (if counts entry s then 1 else 0) + how_many counts next entries (next entry s)

module _ {A B S : Type 0} (limit : ℕ) (a0 : A) (one : B → A → S → A × Bool × S) where
  pub visit-IsWithin :
      (entries : List B) (table : Table A) (s : S)
      → IsWithin limit table
      → IsWithin limit (visit limit a0 one entries table s).0
  unfolding visit
  visit-IsWithin [] table s h = h
  visit-IsWithin (entry ∷ entries) table s h =
      let r = one entry (get_or table.slots table.count a0) s in
      elim (Bool-cases (ltb table.count limit)) [
        | inr full ↦ rw full h
        | inl free ↦ rw free (
            visit-IsWithin entries (write r.1 r.0 table) r.2
              (write-IsWithin limit r.1 r.0 table (ltb→lt table.count limit free) h))
      ]

  written-listed :
      {C : Type 0} (read : A → C) (counted : Bool) (a : A) (table : Table A) (rest : List C)
      → table.count < limit
      → IsWithin limit table
      → map read (used (write counted a table)) ++ take (limit - (write counted a table).count) rest
        ≡ map read (used table)
          ++ take (limit - table.count) (cons_some (if counted then some (read a) else none) rest)
  written-listed read true a table rest free h =
      let left : limit - table.count ≡ suc (limit - suc table.count) = omega (arith, free) in
      rw
        (
          left,
          take_next table.slots table.count a (omega (arith, free, h.room)),
          map-append read (used table) (a ∷ []),
        )
        (append_assoc (map read (used table)) (read a ∷ []) (take (limit - suc table.count) rest))
  written-listed read false a table rest free h = rw (take-set table.slots table.count a) refl

  -- Where `wanted` says what an entry adds and `next` how the state goes on, the slots in use are the
  -- first ones, up to the limit, of what all entries add.
  pub visit-collect :
      {C : Type 0} (read : A → C) (wanted : B → S → Option C) (next : B → S → S)
      → ((entry : B) (a : A) (s : S)
          → ((if (one entry a s).1 then some (read (one entry a s).0) else none) ≡ wanted entry s)
            × ((one entry a s).2 ≡ next entry s))
      → (entries : List B) (table : Table A) (s : S) → IsWithin limit table
      → map read (used (visit limit a0 one entries table s).0)
        ≡ map read (used table) ++ take (limit - table.count) (collect wanted next entries s)
  unfolding visit
  visit-collect {C} read wanted next does [] table s h =
      rw (take-nil {A = C} (limit - table.count)) (sym (append-nil (map read (used table))))
  visit-collect read wanted next does (entry ∷ entries) table s h =
      let r = one entry (get_or table.slots table.count a0) s in
      let (adds, goes) = does entry (get_or table.slots table.count a0) s in
      let rest = collect wanted next entries (next entry s) in
      elim (Bool-cases (ltb table.count limit)) [
        | inr full ↦
            let none_left : limit - table.count ≡ 0 = ground (arith, full) in
            rw (full, none_left) (sym (append-nil (map read (used table))))
        | inl free ↦
            let free' = ltb→lt table.count limit free in
            let after = write r.1 r.0 table in
            let hyp =
              visit-collect read wanted next does entries after (next entry s)
                (write-IsWithin limit r.1 r.0 table free' h) in
            rw (free, goes, sym adds) (hyp ∙ written-listed read r.1 r.0 table rest free' h)
      ]

  -- What every write keeps holds after the loop.
  pub visit-keeps :
      (Kept : Table A → S → Type 0)
      → ((entry : B) (table : Table A) (s : S)
          → table.count < limit
          → IsWithin limit table
          → Kept table s
          → let r = one entry (get_or table.slots table.count a0) s in
            Kept (write r.1 r.0 table) r.2)
      → (entries : List B) (table : Table A) (s : S) → IsWithin limit table
      → Kept table s
      → let r = visit limit a0 one entries table s in Kept r.0 r.1
  unfolding visit
  visit-keeps Kept keeps [] table s h kept = kept
  visit-keeps Kept keeps (entry ∷ entries) table s h kept =
      let r = one entry (get_or table.slots table.count a0) s in
      elim (Bool-cases (ltb table.count limit)) [
        | inr full ↦ rw full kept
        | inl free ↦
            let free' = ltb→lt table.count limit free in
            rw free (
              visit-keeps Kept keeps entries (write r.1 r.0 table) r.2
                (write-IsWithin limit r.1 r.0 table free' h) (keeps entry table s free' h kept))
      ]

  -- Where the entries that count leave a slot free, the state has gone through all entries.
  pub visit-after_all :
      (counts : B → S → Bool) (next : B → S → S)
      → ((entry : B) (a : A) (s : S)
          → ((one entry a s).1 ≡ counts entry s) × ((one entry a s).2 ≡ next entry s))
      → (entries : List B) (table : Table A) (s : S)
      → table.count + how_many counts next entries s < limit
      → (visit limit a0 one entries table s).1 ≡ after_all next entries s
  unfolding visit
  visit-after_all counts next does [] table s fits = refl
  visit-after_all counts next does (entry ∷ entries) table s fits =
      let (counted, goes) = does entry (get_or table.slots table.count a0) s in
      let r = one entry (get_or table.slots table.count a0) s in
      let free : ltb table.count limit ≡ true = lt→ltb table.count limit (omega (arith, fits)) in
      rw (free, goes, counted)
        (visit-after_all counts next does entries (write (counts entry s) r.0 table) (next entry s)
          (ground (arith, fits)))
