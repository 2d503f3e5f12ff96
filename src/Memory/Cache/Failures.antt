-- ===== src/Memory/Cache/Failures.antt =====
-- `cache_set` (src/memory_opt.c) when `malloc` fails, and when an argument is missing.
use hifetch.Common.{
  Leaves, ℕ, ◌+◌, ◌≤◌, ◌≡◌, ◌≢◌, refl, Bool, true, false, List, Option, none, some, arith, negsuc,
  ◌&&◌, ◌⊎◌, str_eq_refl,
}
use hifetch.Memory.Cache.Answers.{cache_set-store, cache_get-answer}
use hifetch.Memory.Cache.Chain
use hifetch.Memory.Cache.Chain.{CacheItem, find_item, update_item}
use hifetch.Memory.Cache.Refine.{answer}
use hifetch.Memory.Cache.Valid.{IsValid, view, set-view}
use hifetch.Memory.Cache.{
  Cache, Alloc, undefined, chain_of, cache_timeout, copy_item, cache_set, cache_store, cache_insert,
  cache_overwrite, cache_get,
}

abbrev pub Absent : Option Cache → Option (List ℕ) → Type 0
Absent (some c) (some key) = view c key ≡ none
Absent _ _ = ⊥

-- A `cache_set` with a null cache, key or block or a size of 0, or one that needs an allocation
-- that fails for a key which is not there, returns -1 and leaves the cache as it was.
pub cache_set-refused :
    (alloc : Alloc) (now : ℕ) (c : Option Cache) (key block : Option (List ℕ)) (size : ℕ)
    → (c ≡ none)
      ⊎ (key ≡ none)
      ⊎ (block ≡ none)
      ⊎ (size ≡ 0)
      ⊎ Absent c key × ((alloc.node && alloc.block) ≡ false)
    → cache_set alloc now c key block size ≡ (negsuc 0, c)
unfolding cache_set cache_store cache_insert view
cache_set-refused alloc now none key block size h = refl
cache_set-refused alloc now (some c) none block size h = refl
cache_set-refused alloc now (some c) (some key) none size h = refl
cache_set-refused alloc now (some c) (some key) (some block) size h = ground arith

overwrite_lost :
    (node : Bool) (now : ℕ) (c : Cache) (key block : List ℕ) (size : ℕ) (old : CacheItem)
    → IsValid c
    → view c key ≡ some old
    → let (status, c') = cache_store (record { node = node; block = false }) now c key block size in
      (status ≡ negsuc 0) × (view c' key ≡ some (record old { payload = none }))
unfolding cache_store cache_overwrite view
overwrite_lost node now c key block size old v present =
    let lose : CacheItem → CacheItem = λ item. record item { payload = none } in
    let reads =
      set-view c v key (update_item key lose (chain_of c key)) (some (lose old))
        (λ q. Chain.find_item-update_item key lose (λ item. refl) q (chain_of c key) old present)
        key in
    rw (present, cache_store) (refl, rw (str_eq_refl key) at reads)

-- When `cache_set` finds the key and cannot allocate the new block it returns -1, and a `cache_get`
-- under the key before the item expires copies from a null pointer.
pub cache_set-loses :
    (node : Bool) (now later : ℕ) (c : Cache) (key block : List ℕ) (size : ℕ) (old : CacheItem)
    → IsValid c
    → view c key ≡ some old
    → size ≢ 0
    → later ≤ old.timestamp + cache_timeout
    → let (status, left) =
        cache_set
          (record { node = node; block = false })
          now
          (some c)
          (some key)
          (some block)
          size in
      (status ≡ negsuc 0)
      × Leaves left (λ c'. (cache_get true later (some c') (some key)).0 ≡ undefined)
unfolding Leaves
cache_set-loses node now later c key block size old v present positive fresh =
    let alloc : Alloc = record { node = node; block = false } in
    let (status, seen) = overwrite_lost node now c key block size old v present in
    rw (cache_set-store alloc now c key block size positive, status)
      (refl, rw (cache_get-answer, seen) (unfold answer copy_item in ground arith))
