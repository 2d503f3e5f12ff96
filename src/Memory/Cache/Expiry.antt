-- ===== src/Memory/Cache/Expiry.antt =====
-- Lookups and the sweep of expired items (src/memory_opt.c, `cache_get`, `cache_cleanup_expired`)
-- change no later answer.
use hifetch.Common.{
  Leaves, ℕ, ◌≤◌, ◌≡◌, refl, Bool, true, false, List, [], ◌∷◌, some, arith, if◌then◌else◌, str_eq,
  str_eq_iff, length, suc, zero, get_or, Option-cases, Bool-cases, inl, inr, length-set, add32,
  sub32, sub64, ap, ◌∙◌,
}
use hifetch.Memory.Cache.Chain
use hifetch.Memory.Cache.Chain.{CacheItem, find_item, update_item, count}
use hifetch.Memory.Cache.Refine.{answer, cache_fetch-answer, Removes, cache_remove-Removes}
use hifetch.Memory.Cache.Valid.{IsValid, view, set-view, set-placed, unique}
use hifetch.Memory.Cache.{
  Cache, null, with_chain, is_expired, chain_of, copy_item, cache_remove, cache_get, cache_fetch,
  clean_chain, clean_buckets, cleanup_expired, cache_cleanup_expired,
}
use hifetch.Memory.Hash.{hash_key}

-- Two caches that answer alike from time `now` on.
abbrev SameAnswers : ℕ → Cache → Cache → Type 0
SameAnswers now c c' =
    (block : Bool) (later : ℕ) (q : List ℕ)
    → now ≤ later
    → answer block later (view c' q) ≡ answer block later (view c q)

answer_expired :
    (block : Bool) (now later : ℕ) (item : CacheItem)
    → now ≤ later
    → is_expired now item ≡ true
    → answer block later (some item) ≡ null
unfolding answer
answer_expired block now later item h e = ground arith

remove-SameAnswers :
    (now : ℕ) (c : Cache) (key : List ℕ) (item : CacheItem)
    → IsValid c
    → view c key ≡ some item
    → is_expired now item ≡ true
    → IsValid (cache_remove c key) × SameAnswers now c (cache_remove c key)
unfolding Removes
remove-SameAnswers now c key item v e expired =
    let (valid, reads) = cache_remove-Removes c key v in
    (
      valid,
      λ block later q h. rw (reads q) (elim (Bool-cases (str_eq key q)) [
        | inl same ↦
            rw (same, ← (str_eq_iff key q).0 same, e, answer_expired block now later item h expired)
              (unfold answer in refl)
        | inr other ↦ rw other
      ]),
    )

abbrev pub touch : CacheItem → CacheItem
touch held = record held { ref_count = sub32 (add32 held.ref_count 1) 1 }

answer-touch :
    (block : Bool) (later : ℕ) (item : CacheItem)
    → answer block later (some (touch item)) ≡ answer block later (some item)
unfolding answer copy_item
answer-touch true later item = refl
answer-touch false later item = refl

touch-SameAnswers :
    (now : ℕ) (c : Cache) (key : List ℕ) (item : CacheItem)
    → IsValid c
    → find_item key (chain_of c key) ≡ some item
    → let c' = with_chain c key (update_item key touch (chain_of c key)) in
      IsValid c' × SameAnswers now c c'
touch-SameAnswers now c key item v e =
    let chain : List CacheItem = update_item key touch (chain_of c key) in
    (
      record {
        width = rw length-set v.width;
        placed = set-placed c v key chain (λ q.
            rw (Chain.count-update_item key touch (λ it. refl) q (chain_of c key))
              (v.placed q (hash_key key)));
      },
      λ block later q h. rw (seen q) (elim (Bool-cases (str_eq key q)) [
        | inl same ↦
            let seen_key : view c key ≡ some item = unfold view in e in
            rw (same, ← (str_eq_iff key q).0 same, seen_key) (answer-touch block later item)
        | inr other ↦ rw other
      ]),
    )
  where
    seen :
        (q : List ℕ)
        → view (with_chain c key (update_item key touch (chain_of c key))) q
          ≡ (if str_eq key q then some (touch item) else view c q)
    seen q =
        unfold view in
        set-view c v key (update_item key touch (chain_of c key)) (some (touch item))
          (λ p. Chain.find_item-update_item key touch (λ it. refl) p (chain_of c key) item e) q

pub cache_fetch-SameAnswers :
    (copied : Bool) (now : ℕ) (c : Cache) (key : List ℕ)
    → IsValid c
    → IsValid (cache_fetch copied now c key).1 × SameAnswers now c (cache_fetch copied now c key).1
unfolding cache_fetch
cache_fetch-SameAnswers copied now c key v = elim (Option-cases (find_item key (chain_of c key))) [
  | inl e ↦ rw (e, cache_fetch) (v, λ block later q h. refl)
  | inr (item, e) ↦ elim (Bool-cases (is_expired now item)) [
    | inl gone ↦
        rw (e, cache_fetch, gone) (remove-SameAnswers now c key item v (unfold view in e) gone)
    | inr fresh ↦ rw (e, cache_fetch, fresh) (touch-SameAnswers now c key item v e)
  ]
]

-- A `cache_get` keeps the cache valid, and every later `cache_get`, under any key and from the same
-- time on, answers as it would have without it.
pub cache_get-cache_get :
    (copied block : Bool) (now later : ℕ) (c : Cache) (key q : List ℕ)
    → IsValid c
    → now ≤ later
    → Leaves (cache_get copied now (some c) (some key)).1 (λ c'.
      IsValid c'
      × ((cache_get block later (some c') (some q)).0
          ≡ (cache_get block later (some c) (some q)).0))
unfolding cache_get Leaves
cache_get-cache_get copied block now later c key q v h =
    let (valid, same) = cache_fetch-SameAnswers copied now c key v in
    (valid, rw (cache_fetch-answer, cache_fetch-answer) (same block later q h))

-- The sweep of one bucket, counters aside: what it keeps.
live : ℕ → List CacheItem → List CacheItem
live now [] = []
live now (item ∷ rest) = if is_expired now item then live now rest else item ∷ live now rest

clean_chain-live :
    (now : ℕ) (chain : List CacheItem) (n m : ℕ) → (clean_chain now chain n m).0 ≡ live now chain
unfolding clean_chain live
clean_chain-live now [] n m = refl
clean_chain-live now (item ∷ rest) n m = ground (
  arith,
  clean_chain-live now rest (if is_expired now item then sub32 n 1 else n)
      (if is_expired now item then sub64 m item.data_size else m),
)

count-live-le :
    (now : ℕ) (q : List ℕ) (chain : List CacheItem) → count q (live now chain) ≤ count q chain
unfolding live count
count-live-le now q [] = omega arith
count-live-le now q (item ∷ rest) = ground (arith, count-live-le now q rest)

find_item-live :
    (block : Bool) (now later : ℕ) (q : List ℕ) (chain : List CacheItem)
    → now ≤ later
    → count q chain ≤ 1
    → answer block later (find_item q (live now chain)) ≡ answer block later (find_item q chain)
unfolding live find_item count answer
find_item-live block now later q [] h few = refl
find_item-live block now later q (item ∷ rest) h few = ground (
  arith,
  find_item-live block now later q rest,
  count-live-le now q rest,
  Chain.find_item-eq-none q (live now rest),
)

clean_buckets-live :
    (now : ℕ) (i : ℕ) (buckets : List (List CacheItem)) (n m : ℕ)
    → (length (clean_buckets now buckets n m).0 ≡ length buckets)
      × (get_or (clean_buckets now buckets n m).0 i [] ≡ live now (get_or buckets i []))
unfolding clean_buckets live
clean_buckets-live now i [] n m = (refl, refl)
clean_buckets-live now zero (chain ∷ buckets) n m =
    let (chain', n', m') = clean_chain now chain n m in
    (ap suc (clean_buckets-live now zero buckets n' m').0, clean_chain-live now chain n m)
clean_buckets-live now (suc i) (chain ∷ buckets) n m =
    let (chain', n', m') = clean_chain now chain n m in
    let (width, reads) = clean_buckets-live now i buckets n' m' in (ap suc width, reads)

-- A sweep at time `now` keeps the cache valid, and no `cache_get` from that time on can tell that
-- it ran.
pub cache_get-cache_cleanup_expired :
    (block : Bool) (now later : ℕ) (c : Cache) (q : List ℕ)
    → IsValid c
    → now ≤ later
    → Leaves (cache_cleanup_expired now (some c)) (λ c'.
      IsValid c'
      × ((cache_get block later (some c') (some q)).0
          ≡ (cache_get block later (some c) (some q)).0))
unfolding cache_cleanup_expired cleanup_expired cache_get Leaves
cache_get-cache_cleanup_expired block now later c q v h =
    let swept = λ (i : ℕ). clean_buckets-live now i c.buckets c.total_items c.total_memory in
    (
      record {
        width = (swept 0).0 ∙ v.width;
        placed = λ p i.
            rw (swept i).1
              (omega (arith, count-live-le now p (get_or c.buckets i []), v.placed p i));
      },
      rw (cache_fetch-answer, cache_fetch-answer)
          (unfold view in
            rw (swept (hash_key q)).1
              (find_item-live block now later q (chain_of c q) h (unique c v q q))),
    )

-- A sweep at time `now` leaves no expired item in any bucket.
live-fresh :
    (now : ℕ) (q : List ℕ) (chain : List CacheItem) (item : CacheItem)
    → find_item q (live now chain) ≡ some item
    → is_expired now item ≡ false
unfolding live find_item
live-fresh now q [] item e = ground arith
live-fresh now q (first ∷ rest) item e = ground (arith, live-fresh now q rest item)
