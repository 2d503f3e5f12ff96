-- ===== src/Memory/Cache/Refine.antt =====
-- The cache of src/memory_opt.c against a map from keys to timed entries: what `cache_get` answers
-- after `cache_set`, `cache_delete` and `cache_cleanup_expired`.
use hifetch.Common.{
  ℕ, ◌≤◌, ◌≡◌, refl, Bool, true, List, ◌∷◌, Option, none, some, arith, if◌then◌else◌, str_eq,
  str_eq_iff, length, take, take_all, pos, Option-cases, inl, inr, length-set,
}
use hifetch.Memory.Cache.Chain
use hifetch.Memory.Cache.Chain.{CacheItem, find_item, update_item, erase_item, count}
use hifetch.Memory.Cache.Valid.{IsValid, view, set-view, set-placed, unique}
use hifetch.Memory.Cache.{
  Alloc, Cache, Reply, null, chain_of, is_expired, copy_item, cache_store, cache_overwrite,
  cache_insert, cache_remove, cache_fetch,
}
use hifetch.Memory.Hash.{hash_key}

-- What a lookup that reaches `item` at time `now` answers.
unfoldable pub answer : Bool → ℕ → Option CacheItem → Reply
answer block now none = null
answer block now (some item) = if is_expired now item then null else copy_item block item

pub cache_fetch-answer :
    (block : Bool) (now : ℕ) (c : Cache) (q : List ℕ)
    → (cache_fetch block now c q).0 ≡ answer block now (view c q)
unfolding cache_fetch answer view
cache_fetch-answer block now c q = ground arith

abbrev pub both : Alloc
both = record { node = true; block = true }

-- The item that a successful `cache_set` leaves under its key.
unfoldable pub stored : ℕ → List ℕ → List ℕ → ℕ → Option CacheItem → CacheItem
stored now key bytes size none = record {
  key = key;
  payload = some (take size bytes);
  data_size = size;
  timestamp = now;
  ref_count = 1;
}
stored now key bytes size (some item) = record item {
  payload = some (take size bytes);
  data_size = size;
  timestamp = now;
}

-- A store under a key that fits keeps the invariant and writes just that key.
pub record Stores (now : ℕ) (c : Cache) (key bytes : List ℕ) (size : ℕ) (c' : Cache) : Type 0 where
  pub valid : IsValid c'
  pub reads :
      (q : List ℕ)
      → view c' q
        ≡ (if str_eq key q then some (stored now key bytes size (view c key)) else view c q)

insert-Stores :
    (now : ℕ) (c : Cache) (key bytes : List ℕ) (size : ℕ)
    → IsValid c
    → length key ≤ 127
    → find_item key (chain_of c key) ≡ none
    → ((cache_insert both now c key bytes size).0 ≡ pos 0)
      × Stores now c key bytes size (cache_insert both now c key bytes size).1
unfolding cache_insert stored view
insert-Stores now c key bytes size v short e =
    let item = stored now key bytes size none in
    let chain : List CacheItem = item ∷ chain_of c key in
    rw (take_all 127 key short) (
      refl,
      record {
        valid = record {
          width = rw length-set v.width;
          placed = set-placed c v key chain (λ q.
              unfold count in
              ground (
                arith,
                str_eq_iff key q,
                Chain.count_of_find key (chain_of c key),
                v.placed q (hash_key key),
              ));
        };
        reads = λ q.
            rw (e, stored)
              (set-view c v key chain (some item) (λ q. unfold find_item in ground arith) q);
      },
    )

overwrite-Stores :
    (now : ℕ) (c : Cache) (key bytes : List ℕ) (size : ℕ)
    → IsValid c
    → (old : CacheItem) → find_item key (chain_of c key) ≡ some old
    → ((cache_overwrite both now c key bytes size).0 ≡ pos 0)
      × Stores now c key bytes size (cache_overwrite both now c key bytes size).1
unfolding cache_overwrite stored view
overwrite-Stores now c key bytes size v old e =
    let write : CacheItem → CacheItem =
      λ item. record item { payload = some (take size bytes); data_size = size; timestamp = now } in
    let chain : List CacheItem = update_item key write (chain_of c key) in
    (
      refl,
      record {
        valid = record {
          width = rw length-set v.width;
          placed = set-placed c v key chain (λ q.
              rw (Chain.count-update_item key write (λ item. refl) q (chain_of c key))
                (omega arith));
        };
        reads = λ q.
            rw (e, stored)
              (set-view c v key chain (some (write old))
                (λ q. Chain.find_item-update_item key write (λ item. refl) q (chain_of c key) old e)
                q);
      },
    )

pub cache_store-Stores :
    (now : ℕ) (c : Cache) (key bytes : List ℕ) (size : ℕ)
    → IsValid c
    → length key ≤ 127
    → ((cache_store both now c key bytes size).0 ≡ pos 0)
      × Stores now c key bytes size (cache_store both now c key bytes size).1
unfolding cache_store
cache_store-Stores now c key bytes size v short =
    elim (Option-cases (find_item key (chain_of c key))) [
      | inl e ↦ rw (e, cache_store) (insert-Stores now c key bytes size v short e)
      | inr (old, e) ↦ rw (e, cache_store) (overwrite-Stores now c key bytes size v old e)
    ]

unfoldable pub Removes : Cache → List ℕ → Cache → Type 0
Removes c key c' =
    IsValid c' × ((q : List ℕ) → view c' q ≡ (if str_eq key q then none else view c q))

erase-Removes :
    (c : Cache) (key : List ℕ)
    → IsValid c
    → (old : CacheItem) → find_item key (chain_of c key) ≡ some old
    → Removes c key (cache_remove c key)
unfolding Removes view cache_remove
erase-Removes c key v old e =
    let chain : List CacheItem = erase_item key (chain_of c key) in
    rw (e, cache_remove)
      (
        record {
          width = rw length-set v.width;
          placed = set-placed c v key chain (λ q.
              omega (
                arith,
                Chain.count-erase_item-le key q (chain_of c key),
                v.placed q (hash_key key),
              ));
        },
        λ q.
            set-view c v key chain none
              (λ p. Chain.find_item-erase_item key p (chain_of c key) (unique c v key p)) q,
      )

pub cache_remove-Removes :
    (c : Cache) (key : List ℕ) → IsValid c → Removes c key (cache_remove c key)
unfolding Removes view cache_remove
cache_remove-Removes c key v = elim (Option-cases (find_item key (chain_of c key))) [
  | inl e ↦ rw (e, cache_remove) (v, λ q. ground (arith, str_eq_iff key q))
  | inr (old, e) ↦ erase-Removes c key v old e
]
