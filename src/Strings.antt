-- ===== src/Strings.antt =====
-- The helpers on C strings (src/utils.c, `trim_string` and `get_string_between`; src/security.c,
-- `is_safe_path` and the bounded copies).
pub mod Trim
pub mod Search
pub mod Commands
pub mod Reading
pub mod Ring
pub mod Secure
mod Tests
use hifetch.Common.{
  codes, ℕ, zero, suc, ◌+◌, ◌-◌, Bool, true, false, not, ◌||◌, List, [], ◌∷◌, ◌++◌, Option, none,
  some, ◌==◌, if◌then◌else◌, ltb, leb, get_or, length, take, drop, strstr, is_some,
}

-- The four characters that `trim_string` drops.
abbrev pub is_blank : ℕ → Bool
is_blank c = c == b' ' || c == 9 || c == 10 || c == 13

-- The loop from the end of the string: with `n` bytes left of it, how many it leaves.
unfoldable pub trim_end : ℕ → List ℕ → ℕ
trim_end zero str = 0
trim_end (suc n) str =
    let rest = trim_end n str in if is_blank (get_or str n 0) then rest else suc n

-- The loop that moves `start` forward, to the terminator at most.
unfoldable pub skip_blanks : List ℕ → List ℕ
skip_blanks [] = []
skip_blanks (c ∷ str) = let rest = skip_blanks str in if is_blank c then rest else c ∷ str

-- What the string holds afterwards.
unfoldable pub trim_string : List ℕ → List ℕ
trim_string str =
    if length str == 0 then str else skip_blanks (take (trim_end (length str) str) str)

abbrev pub max_str : ℕ
max_str = 256

-- `e - s` bytes of `s`, of which `MAX_STR - 1` fit.
unfoldable pub copy_between : List ℕ → List ℕ → List ℕ
copy_between s e =
    let len = length s - length e in take (if leb max_str len then max_str - 1 else len) s

-- What `dest` holds afterwards, for four strings that are there.
unfoldable pub get_string_between : List ℕ → List ℕ → List ℕ → List ℕ
get_string_between src start end = elim (strstr src start) [
  | none ↦ []
  | some found ↦
      let s = drop (length start) found in
      elim (strstr s end) [ none ↦ [] | some e ↦ copy_between s e ]
]

abbrev pub max_path : ℕ
max_path = 1024

abbrev pub has : List ℕ → List ℕ → Bool
has text word = is_some (strstr text word)

-- `none` is a null pointer.
unfoldable pub is_safe_path : Option (List ℕ) → Bool
is_safe_path none = true
is_safe_path (some path) =
    if length path == 0 || ltb max_path (length path)
    then false
    else if has path (codes "..") || has path (codes "//")
    then false
    else if has path (codes "/tmp")
        || has path (codes "/var/tmp")
        || has path (codes "/dev/random")
        || has path (codes "/dev/urandom")
    then false
    else true
