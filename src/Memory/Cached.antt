-- ===== src/Memory/Cached.antt =====
-- Texts that are read through the cache (src/memory_opt.c, `cache_file_content_optimized` and
-- `cache_command_output`).
use hifetch.Common.{ℕ, ◌+◌, Bool, List, [], ◌∷◌, ◌++◌, Option, none, some, if◌then◌else◌, length}
use hifetch.Memory.Cache.{Cache, Alloc, Reply, null, found, undefined, cache_set, cache_get}
use hifetch.Strings.Commands.{c_string}
use hifetch.Strings.Secure.{File, read_file_fast}

-- The bytes of a string with its terminator.
abbrev pub ended : List ℕ → List ℕ
ended text = text ++ 0 ∷ []

-- The text is stored, and the caller gets a copy if `strdup` succeeds.
unfoldable pub store_text :
    Alloc → Bool → ℕ → List ℕ → Option (List ℕ) → Option Cache → Reply × Option Cache
store_text alloc strdup now key none c = (null, c)
store_text alloc strdup now key (some text) c =
    let (status, c') = cache_set alloc now c (some key) (some (ended text)) (length text + 1) in
    (if strdup then found (ended text) (length text + 1) else null, c')

-- What is in the cache is the answer, and what is not is read.
unfoldable pub or_store :
    Alloc → Bool → ℕ → List ℕ → Option (List ℕ) → Reply → Option Cache → Reply × Option Cache
or_store alloc strdup now key read null c = store_text alloc strdup now key read c
or_store alloc strdup now key read (found bytes size) c = (found bytes size, c)
or_store alloc strdup now key read undefined c = (undefined, c)

-- `now` is the time of `cache_get` and `stored` that of `cache_set`; `block` says whether the copy of
-- the former can be allocated.
unfoldable pub cached_text :
    Bool → Alloc → Bool → ℕ → ℕ → Option Cache → List ℕ → Option (List ℕ) → Reply × Option Cache
cached_text block alloc strdup now stored none key read = (null, none)
cached_text block alloc strdup now stored (some c) key read =
    let (reply, c') = cache_get block now (some c) (some key) in
    or_store alloc strdup stored key read reply c'

-- The text of a file that is read into an array with any content.
unfoldable pub file_text : File → List ℕ → Option (List ℕ)
file_text file buffer =
    let (read, after) = read_file_fast file buffer in if read then some (c_string after) else none

unfoldable pub cache_file_content_optimized :
    Bool → Alloc → Bool → ℕ → ℕ → Option Cache → List ℕ → File → List ℕ → Reply × Option Cache
cache_file_content_optimized block alloc strdup now stored c path file buffer =
    cached_text block alloc strdup now stored c path (file_text file buffer)

-- `output` is the answer of `execute_cmd`.
unfoldable pub cache_command_output :
    Bool → Alloc → Bool → ℕ → ℕ → Option Cache → List ℕ → Option (List ℕ) → Reply × Option Cache
cache_command_output block alloc strdup now stored c cmd output =
    cached_text block alloc strdup now stored c cmd output
