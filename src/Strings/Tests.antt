-- ===== src/Strings/Tests.antt =====
-- The string helpers at concrete inputs.
use hifetch.Common.{
  codes, ℕ, ◌-◌, ◌==◌, if◌then◌else◌, arith, Leaves, Option, length-take, ◌≤◌, ◌≡◌, refl, ◌⊎◌, true,
  false, List, [], ◌∷◌, ◌++◌, some, length, take, strstr, starts_with,
}
use hifetch.Strings.Commands.{
  Buffers, pooled, text_at, optimize_memory_pools, new_buffers, take_buffer, read_all, read_into,
  c_string, execute_cmd_fast,
}
use hifetch.Strings.Reading.{read_all-Finished}
use hifetch.Strings.Ring.{after_runs, text_at-execute_cmd_fast}
use hifetch.Strings.Trim.{all_blank, starts_blank, ends_blank, trim_string-cuts}
use hifetch.Strings.{
  trim_string, trim_end, skip_blanks, get_string_between, copy_between, is_safe_path,
}

abbrev padded : List ℕ
padded = b' ' ∷ 9 ∷ b'a' ∷ b' ' ∷ b'b' ∷ 10 ∷ []

trims : trim_string padded ≡ codes "a b"
unfolding trim_string trim_end skip_blanks
trims = refl

trim_string-cuts_example :
    (front : List ℕ) × (back : List ℕ) × (padded ≡ front ++ trim_string padded ++ back)
    × (all_blank front ≡ true)
    × (all_blank back ≡ true)
    × (starts_blank (trim_string padded) ≡ false)
    × (ends_blank (trim_string padded) ≡ false)
trim_string-cuts_example = trim_string-cuts padded

abbrev assignment : List ℕ
assignment = codes "N=<xy>;"

finds_value : get_string_between assignment (b'<' ∷ []) (b'>' ∷ []) ≡ codes "xy"
unfolding get_string_between copy_between strstr starts_with
finds_value = refl

abbrev proc_path : List ℕ
proc_path = codes "/proc"

accepts_proc : is_safe_path (some proc_path) ≡ true
unfolding is_safe_path strstr starts_with
accepts_proc = refl

-- A command that prints "ok" in one read.
abbrev prints : ℕ → ℕ → List ℕ
prints n limit = take limit (if n == 0 then codes "ok" else [])

prints_few : (n limit : ℕ) → length (prints n limit) ≤ limit
prints_few n limit = omega (arith, length-take {A = ℕ} limit (if n == 0 then codes "ok" else []))

read_all-Finished_example : Leaves (read_all prints 4096 0 []) (λ got.
    (length got ≤ 4095)
    × ((length got ≡ 4095) ⊎ ((n : ℕ) × (length (prints n (4095 - length got)) ≡ 0))))
read_all-Finished_example = read_all-Finished prints prints_few

abbrev no_buffers : Buffers
no_buffers = record { buffers = []; fallback = []; pool_index = 0; pool_initialized = false }

abbrev list_cards : Option (List ℕ)
list_cards = some (codes "ls")

text_at-execute_cmd_fast_example :
    let b = (execute_cmd_fast (λ i. true) list_cards (some prints) no_buffers).1 in
    text_at
      (pooled 0)
      (after_runs (λ i. true) ((record { cmd = list_cards; popen = some prints }) ∷ []) b)
    ≡ text_at (pooled 0) b
unfolding execute_cmd_fast optimize_memory_pools new_buffers take_buffer read_into read_all c_string
    trim_string trim_end skip_blanks
text_at-execute_cmd_fast_example =
    text_at-execute_cmd_fast (λ i. true) list_cards (some prints) no_buffers 0 refl
      ((record { cmd = list_cards; popen = some prints }) ∷ []) (omega arith)
