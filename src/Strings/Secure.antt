-- ===== src/Strings/Secure.antt =====
-- Checks and bounded copies (src/security.c, `validate_command`, `secure_strlen`, `secure_strdup` and
-- `secure_memzero`) and the reads of one value (src/utils.c, `read_file_fast`, `read_sysfs_string`).
use hifetch.Common.{
  codes, ℕ, zero, suc, ◌+◌, ◌-◌, ◌≤◌, ◌<◌, ◌^◌, ◌≡◌, refl, ap, Bool, true, false, not, ◌&&◌, ◌||◌,
  List, [], ◌∷◌, ◌++◌, Option, none, some, arith, ◌==◌, if◌then◌else◌, ltb, length, take, drop,
}
use hifetch.Strings.{has, trim_string}
use hifetch.Strings.Commands.{c_string, max_cmd_len}

unfoldable pub has_any : List ℕ → List (List ℕ) → Bool
has_any text [] = false
has_any text (word ∷ words) = has text word || has_any text words

-- "rm ", "dd ", "mkfs", "format", "fdisk", "wget http", "curl http", "nc -l" and "netcat -l"
abbrev pub harmful_words : List (List ℕ)
harmful_words =
    (codes "rm ")
    ∷ (codes "dd ")
    ∷ (codes "mkfs")
    ∷ (codes "format")
    ∷ (codes "fdisk")
    ∷ (codes "wget http")
    ∷ (codes "curl http")
    ∷ (codes "nc -l")
    ∷ (codes "netcat -l")
    ∷ []

-- "../", "~", "/tmp", "/var/tmp", "$USER" and "$HOME"
abbrev pub harmful_paths : List (List ℕ)
harmful_paths =
    (codes "../")
    ∷ (b'~' ∷ [])
    ∷ (codes "/tmp")
    ∷ (codes "/var/tmp")
    ∷ (codes "$USER")
    ∷ (codes "$HOME")
    ∷ []

-- `none` is a null pointer.
unfoldable pub validate_command : Option (List ℕ) → Bool
validate_command none = false
validate_command (some cmd) =
    if (length cmd == 0) || ltb max_cmd_len (length cmd)
    then false
    else if has_any cmd harmful_words
    then false
    else not (has_any cmd harmful_paths)

-- The bytes of a string, at most `max_len` of which are counted.
unfoldable pub count_bytes : List ℕ → ℕ → ℕ
count_bytes [] max_len = 0
count_bytes (c ∷ str) zero = 0
count_bytes (c ∷ str) (suc max_len) = suc (count_bytes str max_len)

unfoldable pub secure_strlen : Option (List ℕ) → ℕ → ℕ
secure_strlen none max_len = 0
secure_strlen (some str) max_len = count_bytes str max_len

-- The copy, or `none` for a null pointer; `malloc` says whether the allocation succeeds.
unfoldable pub secure_strdup : Bool → Option (List ℕ) → ℕ → Option (List ℕ)
secure_strdup malloc none max_len = none
secure_strdup malloc (some src) max_len =
    let len = secure_strlen (some src) max_len in
    if len == 0 then none else if malloc then some (take len src) else none

-- The first `size` bytes of the memory are written.
unfoldable pub secure_memzero : List ℕ → ℕ → List ℕ
secure_memzero [] size = []
secure_memzero (c ∷ mem) zero = c ∷ mem
secure_memzero (c ∷ mem) (suc size) = 0 ∷ secure_memzero mem size

-- What the file gives: it cannot be opened, the read fails, or the bytes that are read.
pub data File : Type 0 where
  closed unreadable : File
  bytes : List ℕ → File

-- The answer, and the `size` bytes of the buffer afterwards.
unfoldable pub read_file_fast : File → List ℕ → Bool × List ℕ
read_file_fast closed buffer = (false, buffer)
read_file_fast unreadable buffer = (false, buffer)
read_file_fast (bytes got) buffer =
    if (length buffer == 0) || ltb (2 ^ 31 - 1) (length buffer)
    then (false, buffer)
    else if ltb 0 (length got) && ltb (length got) (length buffer)
    then (true, got ++ 0 ∷ drop (length got + 1) buffer)
    else (true, take (length buffer - 1) buffer ++ 0 ∷ [])

-- What the caller gets, from the static buffer.
unfoldable pub read_sysfs_string : File → List ℕ → Option (List ℕ)
read_sysfs_string file buffer =
    let (read, after) = read_file_fast file buffer in
    let text = trim_string (c_string after) in
    if read then (if length text == 0 then none else some text) else none

ended : (got rest : List ℕ) → c_string (got ++ 0 ∷ rest) ≡ c_string got
unfolding c_string
ended [] rest = refl
ended (c ∷ got) rest = ap (λ r. if c == 0 then [] else c ∷ r) (ended got rest)

-- A file that is not empty and shorter than the buffer is read with success, and the caller reads its
-- text.
pub read_file_fast-text :
    (got buffer : List ℕ)
    → 1 ≤ length got
    → length got < length buffer
    → length buffer < 2 ^ 31
    → (read_file_fast (bytes got) buffer).0 ≡ true
      × (c_string (read_file_fast (bytes got) buffer).1 ≡ c_string got)
unfolding read_file_fast
read_file_fast-text got buffer some_bytes fits small =
    let sized : (length buffer == 0) || ltb (2 ^ 31 - 1) (length buffer) ≡ false =
      ground (arith, fits, small) in
    let short : ltb 0 (length got) && ltb (length got) (length buffer) ≡ true =
      ground (arith, some_bytes, fits) in
    rw (sized, short) (refl, ended got (drop (length got + 1) buffer))

-- An empty file is read with success, and the caller reads what the buffer held before.
pub read_file_fast-empty :
    (buffer : List ℕ)
    → 1 ≤ length buffer
    → length buffer < 2 ^ 31
    → read_file_fast (bytes []) buffer ≡ (true, take (length buffer - 1) buffer ++ 0 ∷ [])
unfolding read_file_fast
read_file_fast-empty buffer sized small =
    let proper : (length buffer == 0) || ltb (2 ^ 31 - 1) (length buffer) ≡ false =
      ground (arith, sized, small) in
    rw proper refl
