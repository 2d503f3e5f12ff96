-- ===== src/Hardware/Sysfs.antt =====
-- The reads of one value through the static buffer (src/utils.c, `read_sysfs_string`,
-- `read_sysfs_float` and `read_sysfs_int`). A caller that gets a pointer reads the buffer, also after
-- later reads.
use hifetch.Common.{
  ℕ, ◌-◌, ◌≡◌, refl, Bool, true, false, not, ℤ, pos, List, ◌++◌, Option, none, some, ◌==◌,
  if◌then◌else◌, length, take, replicate, strstr, get_or,
}
use hifetch.Strings.{trim_string}
use hifetch.Strings.Commands.{c_string}
use hifetch.Strings.Secure.{File, read_file_fast, read_sysfs_string}
use hifetch.Sysinfo.Facts.{after_last}
use hifetch.Sysinfo.State.{Formats}

-- What the system answers for a path or a pattern; `none` is an error.
pub record Sysfs : Type 0 where
  pub files : List ℕ → File
  pub readlink : List ℕ → Option (List ℕ)
  pub stat : List ℕ → Bool
  pub glob : List ℕ → Option (List (List ℕ))
  pub opendir : List ℕ → Option (List (List ℕ))

-- The 1024 bytes of the static buffer with a text in it. The bytes after the text are read by no one.
unfoldable pub held : List ℕ → List ℕ
held text = take 1024 (text ++ replicate 1024 0)

-- Whether the caller gets the buffer, and the text in it afterwards.
unfoldable pub read_into : File → List ℕ → Bool × List ℕ
read_into file text =
    let (read, after) = read_file_fast file (held text) in
    let trimmed = trim_string (c_string after) in
    if read then (not (length trimmed == 0), trimmed) else (false, text)

-- It is what `read_sysfs_string` answers, from the static buffer.
pub read_into-read_sysfs_string :
    (file : File) (text : List ℕ)
    → (let (there, after) = read_into file text in if there then some after else none)
      ≡ read_sysfs_string file (held text)
unfolding read_into read_sysfs_string
read_into-read_sysfs_string file text =
    let (read, after) = read_file_fast file (held text) in
    let trimmed = trim_string (c_string after) in answers read (length trimmed == 0) trimmed text
  where
    answers :
        (read empty : Bool) (trimmed text : List ℕ)
        → (let r : Bool × List ℕ = if read then (not empty, trimmed) else (false, text) in
            (if r.0 then some r.1 else none))
          ≡ (if read then (if empty then none else some trimmed) else none)
    answers true true trimmed text = refl
    answers true false trimmed text = refl
    answers false empty trimmed text = refl

-- `snprintf` into 512 bytes.
abbrev pub path : List ℕ → List ℕ
path text = take 511 text

abbrev pub read_at : Sysfs → List ℕ → List ℕ → Bool × List ℕ
read_at o place text = read_into (o.files (path place)) text

module _ {D : Type 0} (f : Formats D) where
  unfoldable pub read_sysfs_float : Sysfs → List ℕ → List ℕ → D × List ℕ
  read_sysfs_float o place text =
      let (there, after) = read_at o place text in (if there then f.atof after else f.of_ℕ 0, after)

  unfoldable pub read_sysfs_int : Sysfs → List ℕ → List ℕ → ℤ × List ℕ
  read_sysfs_int o place text =
      let (there, after) = read_at o place text in (if there then f.atoi after else pos 0, after)

-- The name of the driver that a link of at least one byte leads to; without one, what is there stays.
unfoldable pub driver_of : Option (List ℕ) → List ℕ → List ℕ
driver_of none driver = driver
driver_of (some link) driver = elim (after_last b'/' (take 255 link)) [
  | some name ↦ name
  | none ↦ driver
]

-- The text before the first occurrence of a word.
unfoldable pub before : List ℕ → List ℕ → List ℕ
before word text = elim (strstr text word) [
  | none ↦ text
  | some rest ↦ take (length text - length rest) text
]

abbrev pub is_hidden : List ℕ → Bool
is_hidden name = get_or name 0 0 == b'.'
