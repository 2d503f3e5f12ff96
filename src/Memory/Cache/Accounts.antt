-- ===== src/Memory/Cache/Accounts.antt =====
-- The two counters of the cache (src/memory_opt.c, `total_items` and `total_memory`) against the
-- items that stand in its buckets.
use hifetch.Common.{
  ℕ, ◌+◌, ◌%◌, ◌^◌, ◌<◌, ◌≡◌, List, [], ◌∷◌, some, arith, length, take, suc, zero, get_or, set, inl,
  inr, Bool-cases, sub32, sub64,
}
use hifetch.Memory.Cache.Chain
use hifetch.Memory.Cache.Chain.{CacheItem, find_item, update_item, erase_item, chain_bytes}
use hifetch.Memory.Cache.Refine.{both}
use hifetch.Memory.Cache.Valid.{IsValid}
use hifetch.Memory.Cache.{
  Cache, with_chain, is_expired, chain_of, cache_insert, cache_remove, clean_chain, clean_buckets,
  cleanup_expired,
}
use hifetch.Memory.Hash.{hash_key, hash_key-lt}

-- A sum over the buckets.
sum_by : (List CacheItem → ℕ) → List (List CacheItem) → ℕ
sum_by f [] = 0
sum_by f (chain ∷ rest) = f chain + sum_by f rest

sum_by-set :
    (f : List CacheItem → ℕ) (bs : List (List CacheItem)) (i : ℕ) (chain : List CacheItem)
    → i < length bs
    → sum_by f (set bs i chain) + f (get_or bs i []) ≡ sum_by f bs + f chain
unfolding sum_by
sum_by-set f [] i chain h = absurd (omega arith)
sum_by-set f (b ∷ bs) zero chain h = omega arith
sum_by-set f (b ∷ bs) (suc i) chain h = omega (arith, sum_by-set f bs i chain (omega arith))

unfoldable pub items : Cache → ℕ
unfolding sum_by
items c = sum_by length c.buckets

unfoldable pub bytes : Cache → ℕ
unfolding sum_by
bytes c = sum_by chain_bytes c.buckets

pub record IsCounted (c : Cache) : Type 0 where
  pub items_counted : c.total_items ≡ items c % 2 ^ 32
  pub bytes_counted : c.total_memory ≡ bytes c % 2 ^ 64

module _ (c : Cache) (v : IsValid c) (key : List ℕ) where
  bucket_in : hash_key key < length c.buckets
  bucket_in = omega (arith, v.width, hash_key-lt key)

  -- A `cache_set` under a key that is not there counts one item and its size more, if its
  -- allocations succeed.
  pub insert-IsCounted :
      (now : ℕ) (block : List ℕ) (size : ℕ)
      → IsCounted c
      → let c' = (cache_insert both now c key block size).1 in
        IsCounted c' × (items c' ≡ items c + 1) × (bytes c' ≡ bytes c + size)
  unfolding cache_insert items bytes chain_bytes
  insert-IsCounted now block size h =
      let item : CacheItem = record {
        key = take 127 key;
        payload = some (take size block);
        data_size = size;
        timestamp = now;
        ref_count = 1;
      } in
      let one = sum_by-set length c.buckets (hash_key key) (item ∷ chain_of c key) bucket_in in
      let two = sum_by-set chain_bytes c.buckets (hash_key key) (item ∷ chain_of c key) bucket_in in
      (
        record {
          items_counted = omega (arith, h.items_counted);
          bytes_counted = omega (arith, h.bytes_counted);
        },
        omega arith,
        omega arith,
      )

  pub remove-IsCounted :
      (old : CacheItem)
      → find_item key (chain_of c key) ≡ some old
      → IsCounted c
      → let c' = cache_remove c key in
        IsCounted c' × (items c' + 1 ≡ items c) × (bytes c' + old.data_size ≡ bytes c)
  unfolding cache_remove items bytes
  remove-IsCounted old e h =
      let chain : List CacheItem = erase_item key (chain_of c key) in
      let one = sum_by-set length c.buckets (hash_key key) chain bucket_in in
      let two = sum_by-set chain_bytes c.buckets (hash_key key) chain bucket_in in
      let sums = Chain.erase_item_sums key (chain_of c key) old e in
      rw (e, cache_remove)
        (
          record { items_counted = omega arith; bytes_counted = omega arith },
          omega arith,
          omega arith,
        )

  -- A write to an item that is there changes no counter.
  pub update_sums :
      (f : CacheItem → CacheItem) (old : CacheItem)
      → find_item key (chain_of c key) ≡ some old
      → let c' = with_chain c key (update_item key f (chain_of c key)) in
        (items c' ≡ items c) × (bytes c' + old.data_size ≡ bytes c + (f old).data_size)
  unfolding items bytes
  update_sums f old e =
      let chain : List CacheItem = update_item key f (chain_of c key) in
      let one = sum_by-set length c.buckets (hash_key key) chain bucket_in in
      let two = sum_by-set chain_bytes c.buckets (hash_key key) chain bucket_in in
      let sums = Chain.update_item_sums key f (chain_of c key) old e in (omega arith, omega arith)

clean_chain_counts :
    (now : ℕ) (chain : List CacheItem) (n m k j : ℕ)
    → n ≡ (length chain + k) % 2 ^ 32
    → m ≡ (chain_bytes chain + j) % 2 ^ 64
    → let (chain', n', m') = clean_chain now chain n m in
      (n' ≡ (length chain' + k) % 2 ^ 32) × (m' ≡ (chain_bytes chain' + j) % 2 ^ 64)
unfolding clean_chain chain_bytes
clean_chain_counts now [] n m k j h g = (h, g)
clean_chain_counts now (item ∷ rest) n m k j h g = elim (Bool-cases (is_expired now item)) [
  | inl e ↦ rw e (
      clean_chain_counts now rest (sub32 n 1) (sub64 m item.data_size) k j (omega arith)
        (omega arith))
  | inr e ↦
      let (p, q) =
        clean_chain_counts now rest n m (k + 1) (j + item.data_size) (omega arith) (omega arith) in
      rw e (omega arith, omega arith)
]

clean_buckets_counts :
    (now : ℕ) (bs : List (List CacheItem)) (n m k j : ℕ)
    → n ≡ (sum_by length bs + k) % 2 ^ 32
    → m ≡ (sum_by chain_bytes bs + j) % 2 ^ 64
    → let (bs', n', m') = clean_buckets now bs n m in
      (n' ≡ (sum_by length bs' + k) % 2 ^ 32) × (m' ≡ (sum_by chain_bytes bs' + j) % 2 ^ 64)
unfolding clean_buckets sum_by
clean_buckets_counts now [] n m k j h g = (h, g)
clean_buckets_counts now (chain ∷ bs) n m k j h g =
    let (p, q) =
      clean_chain_counts now chain n m (k + sum_by length bs) (j + sum_by chain_bytes bs)
        (omega arith) (omega arith) in
    let (chain', n', m') = clean_chain now chain n m in
    let (p', q') =
      clean_buckets_counts now bs n' m' (k + length chain') (j + chain_bytes chain') (omega arith)
        (omega arith) in
    (omega arith, omega arith)

-- A sweep keeps the counters exact.
pub cleanup-IsCounted : (now : ℕ) (c : Cache) → IsCounted c → IsCounted (cleanup_expired now c)
unfolding cleanup_expired items bytes
cleanup-IsCounted now c h =
    let (p, q) =
      clean_buckets_counts now c.buckets c.total_items c.total_memory 0 0
        (omega (arith, h.items_counted)) (omega (arith, h.bytes_counted)) in
    record { items_counted = omega arith; bytes_counted = omega arith }
