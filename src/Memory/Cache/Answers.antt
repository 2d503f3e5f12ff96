-- ===== src/Memory/Cache/Answers.antt =====
-- What a client of the cache (src/memory_opt.c) sees: the answers of `cache_get` after each of the
-- operations.
use hifetch.Common.{
  Leaves, ℕ, ◌+◌, ◌≤◌, ◌≡◌, ◌≢◌, refl, Bool, true, List, Option, none, some, arith, if◌then◌else◌,
  str_eq, length, length-take, take, take_all, pos, ltb, inl, inr, Bool-cases,
}
use hifetch.Memory.Cache.Chain.{CacheItem}
use hifetch.Memory.Cache.Refine.{
  answer, cache_fetch-answer, both, stored, cache_store-Stores, Removes, cache_remove-Removes,
}
use hifetch.Memory.Cache.Valid.{IsValid, view}
use hifetch.Memory.Cache.{
  Cache, Alloc, null, found, cache_timeout, copy_item, cache_set, cache_store, cache_delete,
  cache_get,
}

pub cache_get-answer :
    (block : Bool) (now : ℕ) (c : Cache) (q : List ℕ)
    → (cache_get block now (some c) (some q)).0 ≡ answer block now (view c q)
unfolding cache_get
cache_get-answer block now c q = cache_fetch-answer block now c q

take-take : (n : ℕ) (xs : List ℕ) → take n (take n xs) ≡ take n xs
take-take n xs = take_all n (take n xs) (omega (arith, length-take n xs))

answer-stored :
    (later now : ℕ) (key bytes : List ℕ) (size : ℕ) (old : Option CacheItem)
    → answer true later (some (stored now key bytes size old))
      ≡ (if ltb (now + cache_timeout) later then null else found (take size bytes) size)
unfolding answer stored copy_item
answer-stored later now key bytes size none = rw (take-take size bytes)
answer-stored later now key bytes size (some item) = rw (take-take size bytes)

pub cache_set-store :
    (alloc : Alloc) (now : ℕ) (c : Cache) (key bytes : List ℕ) (size : ℕ)
    → size ≢ 0
    → cache_set alloc now (some c) (some key) (some bytes) size ≡ (
      (cache_store alloc now c key bytes size).0,
      some (cache_store alloc now c key bytes size).1,
    )
unfolding cache_set
cache_set-store alloc now c key bytes size h = ground arith

-- After a `cache_set` whose allocations succeed, under a key that fits the item's 128 bytes, the
-- call reports success, the cache is valid again, `cache_get` gives the copied bytes and their
-- size under that key until 30 seconds have passed and null from then on, and it answers as before
-- under every other key.
pub cache_get-cache_set :
    (now later : ℕ) (c : Cache) (key bytes : List ℕ) (size : ℕ)
    → IsValid c
    → length key ≤ 127
    → size ≢ 0
    → let (status, left) = cache_set both now (some c) (some key) (some bytes) size in
      (status ≡ pos 0)
      × Leaves left (λ c'.
        IsValid c'
        × ((q : List ℕ)
            → (cache_get true later (some c') (some q)).0 ≡ (
                if str_eq key q
                then (if ltb (now + cache_timeout) later
                    then null
                    else found (take size bytes) size)
                else (cache_get true later (some c) (some q)).0)))
unfolding Leaves
cache_get-cache_set now later c key bytes size v short positive =
    let (status, s) = cache_store-Stores now c key bytes size v short in
    rw (cache_set-store both now c key bytes size positive) (
      status,
      (
        s.valid,
        λ q.
            rw (cache_get-answer, cache_get-answer, s.reads q)
              (elim (Bool-cases (str_eq key q)) [
                | inl e ↦ rw e (answer-stored later now key bytes size (view c key))
                | inr e ↦ rw e
              ]),
      ),
    )

-- After a `cache_delete` the cache is valid, `cache_get` gives null under the key, and answers as
-- before under every other key.
pub cache_get-cache_delete :
    (block : Bool) (now : ℕ) (c : Cache) (key : List ℕ)
    → IsValid c
    → Leaves (cache_delete (some c) (some key)) (λ c'.
      IsValid c'
      × ((q : List ℕ)
          → (cache_get block now (some c') (some q)).0
            ≡ (if str_eq key q then null else (cache_get block now (some c) (some q)).0)))
unfolding cache_delete Leaves Removes
cache_get-cache_delete block now c key v =
    let (valid, reads) = cache_remove-Removes c key v in
    (
      valid,
      λ q.
          rw (cache_get-answer, cache_get-answer, reads q)
            (elim (Bool-cases (str_eq key q)) [
              | inl e ↦ rw e (unfold answer in refl)
              | inr e ↦ rw e
            ]),
    )
