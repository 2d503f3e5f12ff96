-- ===== src/Memory/Tests/CacheTests.antt =====
-- The cache of src/memory_opt.c at concrete inputs.
use hifetch.Common.{
  codes, Leaves, str_eq_refl, ℕ, ◌≡◌, refl, true, false, List, [], ◌∷◌, none, some, arith, pos,
  negsuc, replicate, if◌then◌else◌, str_eq, ltb,
}
use hifetch.Memory.Cache.Accounts.{items, bytes, IsCounted}
use hifetch.Memory.Cache.Answers.{cache_get-cache_set, cache_get-cache_delete}
use hifetch.Memory.Cache.Expiry.{cache_get-cache_cleanup_expired}
use hifetch.Memory.Cache.Failures.{cache_set-loses}
use hifetch.Memory.Cache.Chain.{CacheItem, find_item, update_item, erase_item, chain_bytes}
use hifetch.Memory.Cache.Refine.{both, stored, cache_store-Stores}
use hifetch.Memory.Cache.Valid.{IsValid, view, cache_create-IsValid}
use hifetch.Memory.Cached.{ended, file_text, cache_file_content_optimized}
use hifetch.Memory.Replies.{
  Call, of_file, of_command, run_calls, calls_under, cache_file_content_optimized-calls,
}
use hifetch.Strings.Commands.{c_string}
use hifetch.Strings.Secure.{closed, bytes as bytes_of, read_file_fast}
use hifetch.Memory.Cache.{
  Cache, null, found, undefined, cache_create, cache_set, cache_get, cache_store, cache_insert,
  cache_fetch, cache_remove, copy_item, cache_delete, cache_cleanup_expired,
}
use hifetch.Memory.Hash.{hash_key}

abbrev empty : Cache
empty = record { buckets = replicate 256 []; total_items = 0; total_memory = 0 }

created : cache_create true ≡ some empty
unfolding cache_create
created = refl

cache_create-IsValid_example : IsValid empty × ((q : List ℕ) → view empty q ≡ none)
cache_create-IsValid_example = cache_create-IsValid created

empty-IsValid : IsValid empty
empty-IsValid = cache_create-IsValid_example.0

empty-IsCounted : IsCounted empty
unfolding items bytes chain_bytes
empty-IsCounted = record { items_counted = refl; bytes_counted = refl }

abbrev path : List ℕ
path = codes "/proc"

abbrev text : List ℕ
text = 104 ∷ 105 ∷ 0 ∷ []

view-empty : view empty path ≡ none
view-empty = cache_create-IsValid_example.1 path

-- `text` stored under `path` at time 100
abbrev filled : Cache
filled = (cache_store both 100 empty path text 3).1

abbrev entry : CacheItem
entry = record { key = path; payload = some text; data_size = 3; timestamp = 100; ref_count = 1 }

filled-IsValid : IsValid filled
filled-IsValid = (cache_store-Stores 100 empty path text 3 empty-IsValid (omega arith)).1.valid

view-filled : view filled path ≡ some entry
unfolding stored
view-filled =
    let reads =
      (cache_store-Stores 100 empty path text 3 empty-IsValid (omega arith)).1.reads path in
    rw (str_eq_refl path, view-empty) at reads

cache_get-cache_set_example :
    let (status, left) = cache_set both 100 (some empty) (some path) (some text) 3 in
    (status ≡ pos 0)
    × Leaves left (λ c'.
      IsValid c'
      × ((q : List ℕ)
          → (cache_get true 120 (some c') (some q)).0 ≡ (
              if str_eq path q
              then (if ltb 130 120 then null else found text 3)
              else (cache_get true 120 (some empty) (some q)).0)))
cache_get-cache_set_example =
    cache_get-cache_set 100 120 empty path text 3 empty-IsValid (omega arith) (omega arith)

cache_get-cache_delete_example : Leaves (cache_delete (some filled) (some path)) (λ c'.
    IsValid c'
    × ((q : List ℕ)
        → (cache_get true 120 (some c') (some q)).0
          ≡ (if str_eq path q then null else (cache_get true 120 (some filled) (some q)).0)))
cache_get-cache_delete_example = cache_get-cache_delete true 120 filled path filled-IsValid

cache_get-cache_cleanup_expired_example : Leaves (cache_cleanup_expired 131 (some filled)) (λ c'.
    IsValid c'
    × ((cache_get true 140 (some c') (some path)).0
        ≡ (cache_get true 140 (some filled) (some path)).0))
cache_get-cache_cleanup_expired_example =
    cache_get-cache_cleanup_expired true 131 140 filled path filled-IsValid (omega arith)

cache_set-loses_example :
    let (status, left) =
      cache_set
        (record { node = true; block = false })
        110
        (some filled)
        (some path)
        (some text)
        2 in
    (status ≡ negsuc 0)
    × Leaves left (λ c'. (cache_get true 120 (some c') (some path)).0 ≡ undefined)
cache_set-loses_example =
    cache_set-loses true 110 120 filled path text 2 entry filled-IsValid view-filled (omega arith)
      (omega arith)

-- A hit, a miss after 30 seconds, and a miss after a removal, computed.
run :
    ((cache_get true 120 (some filled) (some path)).0 ≡ found text 3)
    × ((cache_get true 131 (some filled) (some path)).0 ≡ null)
    × ((cache_get true 120 (cache_delete (some filled) (some path)) (some path)).0 ≡ null)
unfolding cache_get cache_fetch cache_store cache_insert cache_delete cache_remove copy_item
    find_item update_item erase_item hash_key str_eq
run = (refl, refl, refl)

missing : (cache_get true 1 (some empty) (some path)).0 ≡ null
unfolding cache_get cache_fetch hash_key find_item
missing = refl

-- The file cannot be opened when it is asked for again, and a command runs in between.
abbrev later_calls : List Call
later_calls =
    record { key = path; reading = of_file closed []; asked = 30; stored = 31 }
    ∷ record { key = codes "ls"; reading = of_command (some (codes "a")); asked = 31; stored = 31 }
    ∷ record {
      key = path;
      reading = of_file (bytes_of (codes "off")) (replicate 8 0);
      asked = 32;
      stored = 32;
    }
    ∷ []

cache_file_content_optimized-calls_example :
    let (reply, left) =
      cache_file_content_optimized true both true 1 2
        (some empty)
        path
        (bytes_of (codes "on"))
        (replicate 8 0) in
    let (replies, last) = run_calls path later_calls left in
    (reply ≡ found (ended (codes "on")) 3)
    × (replies ≡ replicate (calls_under path later_calls) (found (ended (codes "on")) 3))
    × Leaves last IsValid
unfolding file_text read_file_fast c_string
cache_file_content_optimized-calls_example =
    cache_file_content_optimized-calls 1 2 empty path (codes "on") (bytes_of (codes "on"))
      (replicate 8 0) later_calls empty-IsValid (omega arith) missing refl
      (
        omega arith,
        omega arith,
        omega arith,
        (omega arith, omega arith, omega arith, (omega arith, omega arith, omega arith, tt)),
      )
