-- ===== src/Memory/Cache/Counters.antt =====
-- The counters of the cache (src/memory_opt.c) after each of its operations, and keys that are too
-- long for an item.
use hifetch.Common.{
  Leaves, ℕ, ◌+◌, ◌^◌, ◌≤◌, ◌<◌, ◌≡◌, ◌≢◌, refl, Bool, false, List, [], none, some, arith, ap,
  length, take, length-take, get_or-set_self, Option-cases, Bool-cases, inl, inr, pos, str_eq,
  str_eq_iff,
}
use hifetch.Memory.Cache.Accounts.{
  items, bytes, IsCounted, insert-IsCounted, remove-IsCounted, update_sums, cleanup-IsCounted,
}
use hifetch.Memory.Cache.Answers.{cache_get-answer, cache_set-store}
use hifetch.Memory.Cache.Chain.{CacheItem, find_item, update_item}
use hifetch.Memory.Cache.Expiry.{touch}
use hifetch.Memory.Cache.Refine.{both, answer}
use hifetch.Memory.Cache.Valid.{IsValid, view, absent_of_long}
use hifetch.Memory.Cache.{
  Cache, null, with_chain, is_expired, chain_of, cache_set, cache_store, cache_insert,
  cache_overwrite, cache_delete, cache_remove, cache_get, cache_fetch, cache_cleanup_expired,
}
use hifetch.Memory.Hash.{hash_key, hash_key-lt}

store_absent :
    (now : ℕ) (c : Cache) (key block : List ℕ) (size : ℕ)
    → view c key ≡ none
    → cache_store both now c key block size ≡ cache_insert both now c key block size
unfolding view cache_store
store_absent now c key block size e = rw (e, cache_store)

store_present :
    (now : ℕ) (c : Cache) (key block : List ℕ) (size : ℕ) (old : CacheItem)
    → view c key ≡ some old
    → cache_store both now c key block size ≡ cache_overwrite both now c key block size
unfolding view cache_store
store_present now c key block size old e = rw (e, cache_store)

-- A `cache_set` whose allocations succeed, under a key that no item has, counts one item and `size`
-- bytes more, and the counters stay exact.
pub cache_set-IsCounted :
    (now : ℕ) (c : Cache) (key block : List ℕ) (size : ℕ)
    → IsValid c
    → IsCounted c
    → view c key ≡ none
    → size ≢ 0
    → Leaves
        (cache_set both now (some c) (some key) (some block) size).1
        (λ c'. IsCounted c' × (items c' ≡ items c + 1) × (bytes c' ≡ bytes c + size))
unfolding Leaves
cache_set-IsCounted now c key block size v h absent positive =
    rw
      (cache_set-store both now c key block size positive, store_absent now c key block size absent)
      (insert-IsCounted c v key now block size h)

-- A `cache_set` that replaces an item by one of another size leaves `total_memory` as it was, so
-- that it no longer agrees with the bytes in the cache.
pub cache_set-miscounts :
    (now : ℕ) (c : Cache) (key block : List ℕ) (size : ℕ) (old : CacheItem)
    → IsValid c
    → IsCounted c
    → view c key ≡ some old
    → size ≢ 0
    → size < 2 ^ 64
    → old.data_size < 2 ^ 64
    → size ≢ old.data_size
    → Leaves (cache_set both now (some c) (some key) (some block) size).1 (λ c'.
      (c'.total_memory ≡ c.total_memory)
      × (bytes c' + old.data_size ≡ bytes c + size)
      × ¬ (IsCounted c'))
unfolding Leaves view cache_overwrite
cache_set-miscounts now c key block size old v h present positive small small' differs =
    let (_, sum) =
      update_sums c v key
        (λ item. record item {
          payload = some (take size block);
          data_size = size;
          timestamp = now;
        })
        old present in
    rw
      (
        cache_set-store both now c key block size positive,
        store_present now c key block size old present,
      )
      (refl, sum, λ again. omega (arith, again.bytes_counted, h.bytes_counted))

remove-IsCounted_any :
    (c : Cache) (key : List ℕ) → IsValid c → IsCounted c → IsCounted (cache_remove c key)
unfolding cache_remove
remove-IsCounted_any c key v h = elim (Option-cases (find_item key (chain_of c key))) [
  | inl e ↦ rw (e, cache_remove) h
  | inr (old, e) ↦ (remove-IsCounted c v key old e h).0
]

touch-IsCounted :
    (c : Cache) (key : List ℕ) (item : CacheItem)
    → IsValid c
    → find_item key (chain_of c key) ≡ some item
    → IsCounted c
    → IsCounted (with_chain c key (update_item key touch (chain_of c key)))
touch-IsCounted c key item v e h =
    let (count, sum) = update_sums c v key touch item e in
    record {
      items_counted = omega (arith, h.items_counted);
      bytes_counted = omega (arith, h.bytes_counted);
    }

fetch-IsCounted :
    (copied : Bool) (now : ℕ) (c : Cache) (key : List ℕ)
    → IsValid c
    → IsCounted c
    → IsCounted (cache_fetch copied now c key).1
unfolding cache_fetch
fetch-IsCounted copied now c key v h = elim (Option-cases (find_item key (chain_of c key))) [
  | inl e ↦ rw (e, cache_fetch) h
  | inr (item, e) ↦ elim (Bool-cases (is_expired now item)) [
    | inl gone ↦ rw (e, cache_fetch, gone) (remove-IsCounted_any c key v h)
    | inr fresh ↦ rw (e, cache_fetch, fresh) (touch-IsCounted c key item v e h)
  ]
]

-- `cache_delete`, `cache_get` and `cache_cleanup_expired` keep the counters exact, whatever they
-- remove.
pub removals-IsCounted :
    (copied : Bool) (now : ℕ) (c : Cache) (key : List ℕ)
    → IsValid c
    → IsCounted c
    → Leaves (cache_delete (some c) (some key)) IsCounted
      × Leaves (cache_get copied now (some c) (some key)).1 IsCounted
      × Leaves (cache_cleanup_expired now (some c)) IsCounted
unfolding Leaves cache_delete cache_get cache_cleanup_expired
removals-IsCounted copied now c key v h = (
  remove-IsCounted_any c key v h,
  fetch-IsCounted copied now c key v h,
  cleanup-IsCounted now c h,
)

cut_differs : (n : ℕ) (key : List ℕ) → n < length key → str_eq (take n key) key ≡ false
cut_differs n key long = elim (Bool-cases (str_eq (take n key) key)) [
  | inl e ↦
      let same : length (take n key) ≡ length key = ap length ((str_eq_iff (take n key) key).0 e) in
      absurd (omega (arith, length-take n key))
  | inr e ↦ e
]

-- The item of a key that was cut is passed by.
insert_long :
    (now : ℕ) (c : Cache) (key block : List ℕ) (size : ℕ)
    → IsValid c
    → 128 ≤ length key
    → view (cache_insert both now c key block size).1 key ≡ none
unfolding view cache_insert find_item
insert_long now c key block size v long =
    let absent : find_item key (chain_of c key) ≡ none = absent_of_long c v key long in
    rw
      (
        get_or-set_self c.buckets (hash_key key) _ [] (omega (arith, v.width, hash_key-lt key)),
        cut_differs 127 key long,
      )
      absent

-- Under a key of 128 bytes or more a `cache_set` whose allocations succeed reports success and adds
-- an item, and yet `cache_get` under that key gives null.
pub cache_get-long_key :
    (block : Bool) (now later : ℕ) (c : Cache) (key bytes : List ℕ) (size : ℕ)
    → IsValid c
    → IsCounted c
    → 128 ≤ length key
    → size ≢ 0
    → let (status, left) = cache_set both now (some c) (some key) (some bytes) size in
      (status ≡ pos 0)
      × Leaves left
          (λ c'. ((cache_get block later (some c') (some key)).0 ≡ null) × (items c' ≡ items c + 1))
unfolding Leaves cache_insert
cache_get-long_key block now later c key bytes size v h long positive =
    let (_, grown, _) = insert-IsCounted c v key now bytes size h in
    rw
      (
        cache_set-store both now c key bytes size positive,
        store_absent now c key bytes size (absent_of_long c v key long),
      )
      (
        refl,
        (
          rw (cache_get-answer, insert_long now c key bytes size v long) (unfold answer in refl),
          grown,
        ),
      )
