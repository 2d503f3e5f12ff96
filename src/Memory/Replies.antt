-- ===== src/Memory/Replies.antt =====
-- What later calls get from the cache (src/memory_opt.c, `cache_file_content_optimized` and
-- `cache_command_output`).
use hifetch.Common.{
  ℕ, ◌+◌, ◌≤◌, ◌≡◌, refl, ◌∙◌, true, false, List, [], ◌∷◌, Option, none, some, if◌then◌else◌,
  length, length-append, take, take_all, ltb, str_eq, str_eq_refl, str_eq_iff, arith, Leaves, ◌≢◌,
  suc, replicate, Bool-cases, inl, inr,
}
use hifetch.Memory.Cache.Answers.{cache_get-cache_set, cache_set-store}
use hifetch.Memory.Cache.Expiry.{cache_fetch-SameAnswers, cache_get-cache_get}
use hifetch.Memory.Cache.Refine.{both}
use hifetch.Memory.Cache.Valid.{IsValid}
use hifetch.Memory.Cache.{
  Cache, Reply, null, found, undefined, cache_timeout, cache_get, cache_fetch, cache_store,
}
use hifetch.Memory.Cached.{
  ended, store_text, or_store, cached_text, file_text, cache_file_content_optimized,
  cache_command_output,
}
use hifetch.Strings.Secure.{File}

-- What a call reads if its key is not in the cache: a file, into an array with any content, or the
-- output of a command.
pub data Reading : Type 0 where
  of_file : File → List ℕ → Reading
  of_command : Option (List ℕ) → Reading

-- A call of one of the two functions: `asked` is the time of its `cache_get` and `stored` that of its
-- `cache_set`.
pub record Call : Type 0 where
  pub key : List ℕ
  pub reading : Reading
  pub asked : ℕ
  pub stored : ℕ

-- The call, with allocations that succeed.
call_with : Reading → List ℕ → ℕ → ℕ → Option Cache → Reply × Option Cache
call_with (of_file file buffer) key asked stored c =
    cache_file_content_optimized true both true asked stored c key file buffer
call_with (of_command output) key asked stored c =
    cache_command_output true both true asked stored c key output

-- The replies that a sequence of calls gives under one key, and the cache that it leaves.
pub run_calls : List ℕ → List Call → Option Cache → List Reply × Option Cache
run_calls path [] c = ([], c)
run_calls path (call ∷ calls) c =
    let (reply, left) = call_with call.reading call.key call.asked call.stored c in
    let (replies, last) = run_calls path calls left in
    (if str_eq call.key path then reply ∷ replies else replies, last)

-- How many of the calls are under the key.
pub calls_under : List ℕ → List Call → ℕ
calls_under path [] = 0
calls_under path (call ∷ calls) =
    let rest = calls_under path calls in if str_eq call.key path then suc rest else rest

-- Calls one after the other between two times, under keys that fit an item.
abbrev pub InTime : ℕ → ℕ → List Call → Type 0
InTime from until [] = Unit
InTime from until (call ∷ calls) =
    (from ≤ call.asked)
    × (call.asked ≤ until)
    × (length call.key ≤ 127)
    × InTime call.asked until calls

-- The reply under a key that was stored, before the time is up.
reply-ended :
    (other : Reply) (limit later : ℕ) (key text : List ℕ)
    → later ≤ limit
    → (if str_eq key key
        then (if ltb limit later
            then null
            else found (take (length text + 1) (ended text)) (length text + 1))
        else other)
      ≡ found (ended text) (length text + 1)
reply-ended other limit later key text soon =
    let fresh : ltb limit later ≡ false = ground (arith, soon) in
    rw
      (
        str_eq_refl key,
        fresh,
        take_all (length text + 1) (ended text) (omega (arith, length-append text (0 ∷ []))),
      )
      refl

-- A valid cache that gives `expected` under `path` from one time to another.
abbrev Holds : List ℕ → Reply → ℕ → ℕ → Cache → Type 0
Holds path expected until from c =
    IsValid c
    × ((later : ℕ)
        → from ≤ later
        → later ≤ until
        → (cache_get true later (some c) (some path)).0 ≡ expected)

-- What a call under `key` gives and leaves.
abbrev Kept : List ℕ → Reply → ℕ → ℕ → List ℕ → Reply × Option Cache → Type 0
Kept path expected until from key result =
    (c' : Cache) × (result.1 ≡ some c')
    × Holds path expected until from c'
    × (str_eq key path ≡ true → result.0 ≡ expected)

module _ (path bytes : List ℕ) (size until : ℕ) where
  or_store-Kept :
      (from stored : ℕ) (key : List ℕ) (read : Option (List ℕ)) (reply : Reply) (c : Cache)
      → length key ≤ 127
      → Holds path (found bytes size) until from c
      → (str_eq key path ≡ true → reply ≡ found bytes size)
      → Kept path
          (found bytes size)
          until
          from
          key
          (or_store both true stored key read reply (some c))
  unfolding or_store store_text Leaves
  or_store-Kept from stored key read (found b n) c short h same = (c, refl, h, same)
  or_store-Kept from stored key read undefined c short h same = (c, refl, h, same)
  or_store-Kept from stored key none null c short h same = (c, refl, h, same)
  or_store-Kept from stored key (some text) null c short h same =
      let n = length text + 1 in
      let positive : n ≢ 0 = λ e. absurd (omega (arith, e)) in
      let other : str_eq key path ≡ false = elim (Bool-cases (str_eq key path)) [
        | inl e ↦ absurd (ground (arith, same e))
        | inr e ↦ e
      ] in
      let put = cache_set-store both stored c key (ended text) n positive in
      let stays = λ (later : ℕ).
        rw put at (cache_get-cache_set stored later c key (ended text) n h.0 short positive) in
      (
        (cache_store both stored c key (ended text) n).1,
        rw put refl,
        (
          (stays 0).1.0,
          λ later after before. (rw other at ((stays later).1.1 path)) ∙ h.1 later after before,
        ),
        λ e. absurd (ground (arith, e, other)),
      )

  cached_text-Kept :
      (from asked stored : ℕ) (key : List ℕ) (read : Option (List ℕ)) (c : Cache)
      → from ≤ asked
      → asked ≤ until
      → length key ≤ 127
      → Holds path (found bytes size) until from c
      → Kept path
          (found bytes size)
          until
          asked
          key
          (cached_text true both true asked stored (some c) key read)
  unfolding cached_text cache_get Leaves
  cached_text-Kept from asked stored key read c after before short (valid, holds) =
      let kept = λ (later : ℕ). cache_get-cache_get true true asked later c key path valid in
      or_store-Kept asked stored key read (cache_fetch true asked c key).0
        (cache_fetch true asked c key).1 short
        (
          (kept asked (omega arith)).0,
          λ later since soon. (kept later since).1 ∙ holds later (omega (arith, after, since)) soon,
        )
        (λ e. rw ((str_eq_iff key path).0 e) (holds asked after before))

  call_with-Kept :
      (from asked stored : ℕ) (key : List ℕ) (reading : Reading) (c : Cache)
      → from ≤ asked
      → asked ≤ until
      → length key ≤ 127
      → Holds path (found bytes size) until from c
      → Kept path (found bytes size) until asked key (call_with reading key asked stored (some c))
  unfolding call_with cache_file_content_optimized cache_command_output
  call_with-Kept from asked stored key (of_file file buffer) c after before short h =
      cached_text-Kept from asked stored key (file_text file buffer) c after before short h
  call_with-Kept from asked stored key (of_command output) c after before short h =
      cached_text-Kept from asked stored key output c after before short h

  -- Every reply under the key is the one that the cache holds.
  run_calls-replies :
      (from : ℕ) (calls : List Call) (c : Cache)
      → InTime from until calls
      → Holds path (found bytes size) until from c
      → let (replies, last) = run_calls path calls (some c) in
        (replies ≡ replicate (calls_under path calls) (found bytes size)) × Leaves last IsValid
  unfolding run_calls calls_under Leaves
  run_calls-replies from [] c times h = (refl, h.0)
  run_calls-replies from (call ∷ calls) c (after, before, short, times) h =
      let (c', left, h', same) =
        call_with-Kept from call.asked call.stored call.key call.reading c after before short h in
      let (rest, valid) = run_calls-replies call.asked calls c' times h' in
      elim (Bool-cases (str_eq call.key path)) [
        | inl e ↦ rw (left, e, same e, rest) (refl, valid)
        | inr e ↦ rw (left, e, rest) (refl, valid)
      ]

-- When a file that is not in the cache is read, with a path of at most 127 bytes and allocations that
-- succeed, the caller gets its text. Then, whatever calls of `cache_file_content_optimized` and
-- `cache_command_output` follow in the next 30 seconds, one after the other and under any keys of at
-- most 127 bytes, each of those under the path gets the same text, whatever the files hold then and
-- whether or not they can be read, and the cache stays valid.
pub cache_file_content_optimized-calls :
    (now stored : ℕ) (c : Cache) (path text : List ℕ) (file : File) (buffer : List ℕ)
    (calls : List Call)
    → IsValid c
    → length path ≤ 127
    → (cache_get true now (some c) (some path)).0 ≡ null
    → file_text file buffer ≡ some text
    → InTime stored (stored + cache_timeout) calls
    → let (reply, left) =
        cache_file_content_optimized true both true now stored (some c) path file buffer in
      let (replies, last) = run_calls path calls left in
      (reply ≡ found (ended text) (length text + 1))
      × (replies ≡ replicate (calls_under path calls) (found (ended text) (length text + 1)))
      × Leaves last IsValid
unfolding cache_file_content_optimized cached_text or_store store_text Leaves cache_get
cache_file_content_optimized-calls now stored c path text file buffer calls v short miss read
      times =
    let c1 = (cache_fetch true now c path).1 in
    let size = length text + 1 in
    let limit = stored + cache_timeout in
    let positive : size ≢ 0 = λ e. absurd (omega (arith, e)) in
    let valid = (cache_fetch-SameAnswers true now c path v).0 in
    let put = cache_set-store both stored c1 path (ended text) size positive in
    let stays = λ (later : ℕ).
      rw put at (cache_get-cache_set stored later c1 path (ended text) size valid short positive) in
    let (replies, last) =
      run_calls-replies path (ended text) size limit stored calls
        (cache_store both stored c1 path (ended text) size).1 times
        (
          (stays 0).1.0,
          λ later since soon. (stays later).1.1 path ∙ reply-ended _ limit later path text soon,
        ) in
    rw (miss, read, put) (refl, replies, last)
