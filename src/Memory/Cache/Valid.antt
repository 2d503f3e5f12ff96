-- ===== src/Memory/Cache/Valid.antt =====
-- The representation invariant of the cache (src/memory_opt.c), and writes to one bucket.
use hifetch.Common.{
  ℕ, ◌≤◌, ◌≡◌, ◌&&◌, List, [], Option, none, some, arith, ◌==◌, leb, if◌then◌else◌, str_eq,
  str_eq_iff, length, get_or, set, replicate, length-replicate, get_or-replicate, get_or-set_self,
  get_or-set_ne, true,
}
use hifetch.Memory.Cache.Chain
use hifetch.Memory.Cache.Chain.{CacheItem, find_item, count}
use hifetch.Memory.Cache.{Cache, chain_of, cache_create}
use hifetch.Memory.Hash.{hash_key, hash_key-lt}

-- A key that fits `char key[128]` may stand once, in the bucket of its hash; no other key stands.
abbrev pub room : List ℕ → ℕ → ℕ
room q i = if leb (length q) 127 && hash_key q == i then 1 else 0

pub record IsValid (c : Cache) : Type 0 where
  pub width : length c.buckets ≡ 256
  pub placed : (q : List ℕ) (i : ℕ) → count q (get_or c.buckets i []) ≤ room q i

-- The item that a lookup of the key reaches.
unfoldable pub view : Cache → List ℕ → Option CacheItem
view c q = find_item q (chain_of c q)

pub cache_create-IsValid :
    {c : Cache} → cache_create true ≡ some c → IsValid c × ((q : List ℕ) → view c q ≡ none)
unfolding cache_create view find_item count
cache_create-IsValid {c} e =
    let same : c.buckets ≡ replicate 256 [] = ground arith in
    (
      record {
        width = rw same (length-replicate {A = List CacheItem} 256 []);
        placed = λ q i. rw (same, get_or-replicate) (omega arith);
      },
      λ q. rw (same, get_or-replicate),
    )

module _ (c : Cache) (v : IsValid c) (key : List ℕ) where
  -- One write to the bucket of `key` changes at most what is seen under `key`.
  pub set-view :
      (chain : List CacheItem) (item : Option CacheItem)
      → ((q : List ℕ)
          → find_item q chain ≡ (if str_eq key q then item else find_item q (chain_of c key)))
      → (q : List ℕ)
      → find_item q (get_or (set c.buckets (hash_key key) chain) (hash_key q) [])
        ≡ (if str_eq key q then item else view c q)
  unfolding view
  set-view chain item reads q = ground (
    arith,
    reads q,
    v.width,
    hash_key-lt key,
    str_eq_iff key q,
    get_or-set_self c.buckets (hash_key key) chain [],
    get_or-set_ne c.buckets (hash_key key) (hash_key q) chain [],
  )

  pub set-placed :
      (chain : List CacheItem)
      → ((q : List ℕ) → count q chain ≤ room q (hash_key key))
      → (q : List ℕ) (i : ℕ) → count q (get_or (set c.buckets (hash_key key) chain) i []) ≤ room q i
  set-placed chain few q i = ground (
    arith,
    few q,
    v.width,
    v.placed q i,
    hash_key-lt key,
    get_or-set_self c.buckets (hash_key key) chain [],
    get_or-set_ne c.buckets (hash_key key) i chain [],
  )

  pub absent_of_long : 128 ≤ length key → view c key ≡ none
  unfolding view
  absent_of_long long =
      ground (arith, v.placed key (hash_key key), Chain.find_item-eq-none key (chain_of c key))

  pub unique : (q : List ℕ) → count q (chain_of c key) ≤ 1
  unique q = ground (arith, v.placed q (hash_key key))
