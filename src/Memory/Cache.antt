-- ===== src/Memory/Cache.antt =====
-- The timed cache of src/memory_opt.c: 256 chained buckets with counters of items and bytes.
-- Every operation holds the lock of its bucket, so it is one step here. What `malloc` answers and
-- what `time(NULL)` returns are arguments. A null pointer argument is `none`.
pub mod Chain
pub mod Valid
pub mod Refine
pub mod Answers
pub mod Expiry
pub mod Accounts
pub mod Counters
pub mod Failures
use hifetch.Common.{
  ℕ, ◌+◌, ◌≡◌, Bool, true, false, List, [], ◌∷◌, Option, none, some, ltb, ◌==◌, if◌then◌else◌, ℤ,
  pos, negsuc, add32, sub32, add64, sub64, get_or, set, replicate, take,
}
use hifetch.Memory.Cache.Chain.{CacheItem, find_item, update_item, erase_item}
use hifetch.Memory.Hash.{hash_key}

abbrev pub cache_timeout : ℕ
cache_timeout = 30

pub record Cache : Type 0 where
  pub buckets : List (List CacheItem)
  pub total_items : ℕ
  pub total_memory : ℕ

-- Which of the allocations of a call succeed: the item's node, and the block for its bytes.
pub record Alloc : Type 0 where
  pub node : Bool
  pub block : Bool

unfoldable pub cache_create : Bool → Option Cache
cache_create true = some (record { buckets = replicate 256 []; total_items = 0; total_memory = 0 })
cache_create false = none

abbrev pub chain_of : Cache → List ℕ → List CacheItem
chain_of c key = get_or c.buckets (hash_key key) []

abbrev pub with_chain : Cache → List ℕ → List CacheItem → Cache
with_chain c key chain = record c { buckets = set c.buckets (hash_key key) chain }

-- `now - item->timestamp > CACHE_TIMEOUT`, with the signed subtraction moved to the other side.
abbrev pub is_expired : ℕ → CacheItem → Bool
is_expired now item = ltb (item.timestamp + cache_timeout) now

-- The item is found: its old block is freed, and a new one is filled if it can be had.
unfoldable pub cache_overwrite : Alloc → ℕ → Cache → List ℕ → List ℕ → ℕ → ℤ × Cache
cache_overwrite alloc now c key bytes size =
    if alloc.block
    then (
      pos 0,
      with_chain c key (
          update_item key
            (λ item. record item {
              payload = some (take size bytes);
              data_size = size;
              timestamp = now;
            })
            (chain_of c key)),
    )
    else (
      negsuc 0,
      with_chain c key (update_item key (λ item. record item { payload = none }) (chain_of c key)),
    )

-- No item has the key: a new one goes to the front of its bucket.
unfoldable pub cache_insert : Alloc → ℕ → Cache → List ℕ → List ℕ → ℕ → ℤ × Cache
cache_insert alloc now c key bytes size =
    if alloc.node
    then (if alloc.block
        then (
          pos 0,
          record {
            buckets = set c.buckets (hash_key key) (
                (record {
                  key = take 127 key;
                  payload = some (take size bytes);
                  data_size = size;
                  timestamp = now;
                  ref_count = 1;
                })
                ∷ chain_of c key);
            total_items = add32 c.total_items 1;
            total_memory = add64 c.total_memory size;
          },
        )
        else (negsuc 0, c))
    else (negsuc 0, c)

-- `cache_set` after its guard.
unfoldable pub cache_store : Alloc → ℕ → Cache → List ℕ → List ℕ → ℕ → ℤ × Cache
cache_store alloc now c key bytes size = elim (find_item key (chain_of c key)) [
  | some item ↦ cache_overwrite alloc now c key bytes size
  | none ↦ cache_insert alloc now c key bytes size
]

-- The block at `data` holds the given bytes, of which the call copies `size`.
unfoldable pub cache_set :
    Alloc → ℕ → Option Cache → Option (List ℕ) → Option (List ℕ) → ℕ → ℤ × Option Cache
cache_set alloc now (some c) (some key) (some bytes) size =
    if size == 0
    then (negsuc 0, some c)
    else let (status, c') = cache_store alloc now c key bytes size in (status, some c')
cache_set alloc now c _ _ size = (negsuc 0, c)

unfoldable pub cache_remove : Cache → List ℕ → Cache
cache_remove c key = elim (find_item key (chain_of c key)) [
  | some item ↦ record {
    buckets = set c.buckets (hash_key key) (erase_item key (chain_of c key));
    total_items = sub32 c.total_items 1;
    total_memory = sub64 c.total_memory item.data_size;
  }
  | none ↦ c
]

unfoldable pub cache_delete : Option Cache → Option (List ℕ) → Option Cache
cache_delete (some c) (some key) = some (cache_remove c key)
cache_delete c _ = c

-- What `cache_get` gives its caller: null, a fresh block with the size it stores through `size`,
-- or a copy from a null `item->data`, which C leaves undefined.
pub data Reply : Type 0 where
  null : Reply
  found : List ℕ → ℕ → Reply
  undefined : Reply

unfoldable pub copy_item : Bool → CacheItem → Reply
copy_item true item = elim item.payload [
  | some bytes ↦ found (take item.data_size bytes) item.data_size
  | none ↦ undefined
]
copy_item false item = null

-- `cache_get` after its guard. The reference count is raised and lowered around the copy.
unfoldable pub cache_fetch : Bool → ℕ → Cache → List ℕ → Reply × Cache
cache_fetch block now c key = elim (find_item key (chain_of c key)) [
  | none ↦ (null, c)
  | some item ↦ if is_expired now item then (null, cache_remove c key) else (
    copy_item block item,
    with_chain c key (
        update_item key (λ held. record held { ref_count = sub32 (add32 held.ref_count 1) 1 })
          (chain_of c key)),
  )
]

unfoldable pub cache_get : Bool → ℕ → Option Cache → Option (List ℕ) → Reply × Option Cache
cache_get block now (some c) (some key) =
    let (reply, c') = cache_fetch block now c key in (reply, some c')
cache_get block now c _ = (null, c)

-- One bucket of `cache_cleanup_expired`, with the two counters.
unfoldable pub clean_chain : ℕ → List CacheItem → ℕ → ℕ → List CacheItem × ℕ × ℕ
clean_chain now [] total_items total_memory = ([], total_items, total_memory)
clean_chain now (item ∷ rest) total_items total_memory =
    let expired = is_expired now item in
    let (rest', items', memory') =
      clean_chain now rest (if expired then sub32 total_items 1 else total_items)
        (if expired then sub64 total_memory item.data_size else total_memory) in
    (if expired then rest' else item ∷ rest', items', memory')

unfoldable pub clean_buckets : ℕ → List (List CacheItem) → ℕ → ℕ → List (List CacheItem) × ℕ × ℕ
clean_buckets now [] total_items total_memory = ([], total_items, total_memory)
clean_buckets now (chain ∷ buckets) total_items total_memory =
    let (chain', items', memory') = clean_chain now chain total_items total_memory in
    let (buckets', items'', memory'') = clean_buckets now buckets items' memory' in
    (chain' ∷ buckets', items'', memory'')

unfoldable pub cleanup_expired : ℕ → Cache → Cache
cleanup_expired now c =
    let (buckets, items, memory) = clean_buckets now c.buckets c.total_items c.total_memory in
    record { buckets = buckets; total_items = items; total_memory = memory }

unfoldable pub cache_cleanup_expired : ℕ → Option Cache → Option Cache
cache_cleanup_expired now (some c) = some (cleanup_expired now c)
cache_cleanup_expired now none = none
