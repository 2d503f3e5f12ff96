-- ===== src/Memory/Cache/Chain.antt =====
-- One bucket of the cache (src/memory_opt.c, `CacheItem`): a chain walked by its keys.
use hifetch.Common.{
  ℕ, ◌+◌, ◌≤◌, ◌≡◌, refl, List, [], ◌∷◌, Option, none, some, arith, if◌then◌else◌, str_eq,
  str_eq_iff, length,
}

-- `char *data` is `none` when it is null, and else the block's bytes. Strings are written without
-- their terminator.
pub record CacheItem : Type 0 where
  pub key : List ℕ
  pub payload : Option (List ℕ)
  pub data_size : ℕ
  pub timestamp : ℕ
  pub ref_count : ℕ

-- The item at which `while (item) if (strcmp(item->key, key) == 0) …` stops.
unfoldable pub find_item : List ℕ → List CacheItem → Option CacheItem
find_item key [] = none
find_item key (item ∷ rest) = if str_eq item.key key then some item else find_item key rest

-- A write through that pointer.
unfoldable pub update_item : List ℕ → (CacheItem → CacheItem) → List CacheItem → List CacheItem
update_item key f [] = []
update_item key f (item ∷ rest) =
    if str_eq item.key key then f item ∷ rest else item ∷ update_item key f rest

-- `*current = item->next` at that item.
unfoldable pub erase_item : List ℕ → List CacheItem → List CacheItem
erase_item key [] = []
erase_item key (item ∷ rest) = if str_eq item.key key then rest else item ∷ erase_item key rest

-- How many items of a chain have the key.
unfoldable pub count : List ℕ → List CacheItem → ℕ
count q [] = 0
count q (item ∷ rest) = (if str_eq item.key q then 1 else 0) + count q rest

-- The bytes that a chain accounts for.
unfoldable pub chain_bytes : List CacheItem → ℕ
chain_bytes [] = 0
chain_bytes (item ∷ rest) = item.data_size + chain_bytes rest

pub find_item-eq-none :
    (q : List ℕ) (chain : List CacheItem) → count q chain ≡ 0 → find_item q chain ≡ none
unfolding find_item count
find_item-eq-none q [] h = refl
find_item-eq-none q (item ∷ rest) h = ground (arith, find_item-eq-none q rest)

pub count_of_find :
    (q : List ℕ) (chain : List CacheItem) → find_item q chain ≡ none → count q chain ≡ 0
unfolding find_item count
count_of_find q [] h = refl
count_of_find q (item ∷ rest) h = ground (arith, count_of_find q rest)

pub find_item-key :
    (q : List ℕ) (chain : List CacheItem) (item : CacheItem)
    → find_item q chain ≡ some item
    → item.key ≡ q
unfolding find_item
find_item-key q [] item h = ground arith
find_item-key q (first ∷ rest) item h =
    ground (arith, find_item-key q rest item, str_eq_iff first.key q)

module _ (key : List ℕ) (f : CacheItem → CacheItem)
    (same : (item : CacheItem) → (f item).key ≡ item.key) where
  pub find_item-update_item :
      (q : List ℕ) (chain : List CacheItem) (old : CacheItem)
      → find_item key chain ≡ some old
      → find_item q (update_item key f chain)
        ≡ (if str_eq key q then some (f old) else find_item q chain)
  unfolding find_item update_item
  find_item-update_item q [] old h = ground arith
  find_item-update_item q (item ∷ rest) old h = ground (
    arith,
    find_item-update_item q rest old,
    same item,
    str_eq_iff item.key key,
    str_eq_iff item.key q,
    str_eq_iff key q,
  )

  pub count-update_item :
      (q : List ℕ) (chain : List CacheItem) → count q (update_item key f chain) ≡ count q chain
  unfolding count update_item
  count-update_item q [] = refl
  count-update_item q (item ∷ rest) = ground (arith, count-update_item q rest, same item)

module _ (key : List ℕ) where
  pub find_item-erase_item :
      (q : List ℕ) (chain : List CacheItem)
      → count q chain ≤ 1
      → find_item q (erase_item key chain) ≡ (if str_eq key q then none else find_item q chain)
  unfolding find_item erase_item count
  find_item-erase_item q [] h = ground arith
  find_item-erase_item q (item ∷ rest) h = ground (
    arith,
    find_item-erase_item q rest,
    find_item-eq-none q rest,
    str_eq_iff item.key key,
    str_eq_iff item.key q,
    str_eq_iff key q,
  )

  pub count-erase_item-le :
      (q : List ℕ) (chain : List CacheItem) → count q (erase_item key chain) ≤ count q chain
  unfolding count erase_item
  count-erase_item-le q [] = omega arith
  count-erase_item-le q (item ∷ rest) = ground (arith, count-erase_item-le q rest)

  pub erase_item_sums :
      (chain : List CacheItem) (old : CacheItem)
      → find_item key chain ≡ some old
      → (length (erase_item key chain) + 1 ≡ length chain)
        × (chain_bytes (erase_item key chain) + old.data_size ≡ chain_bytes chain)
  unfolding find_item erase_item chain_bytes
  erase_item_sums [] old h = ground arith
  erase_item_sums (item ∷ rest) old h = ground (arith, erase_item_sums rest old)

  pub update_item_sums :
      (f : CacheItem → CacheItem) (chain : List CacheItem) (old : CacheItem)
      → find_item key chain ≡ some old
      → (length (update_item key f chain) ≡ length chain)
        × (chain_bytes (update_item key f chain) + old.data_size
            ≡ chain_bytes chain + (f old).data_size)
  unfolding find_item update_item chain_bytes
  update_item_sums f [] old h = ground arith
  update_item_sums f (item ∷ rest) old h = ground (arith, update_item_sums f rest old)
