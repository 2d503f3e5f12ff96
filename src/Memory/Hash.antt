-- ===== src/Memory/Hash.antt =====
-- The bucket function of the cache (src/memory_opt.c, `hash_key`).
use hifetch.Common.{
  ℕ, ◌+◌, ◌-◌, ◌*◌, ◌%◌, ◌^◌, ◌<◌, ◌≡◌, refl, ◌∙◌, List, [], ◌∷◌, arith, ltb, if◌then◌else◌,
}

-- `int c = *key++` added to an `unsigned int`: a byte from 128 on is sign-extended.
abbrev pub char_to_uint : ℕ → ℕ
char_to_uint c = if ltb c 128 then c else c + (2 ^ 32 - 256)

unfoldable pub hash_from : ℕ → List ℕ → ℕ
hash_from hash [] = hash
hash_from hash (c ∷ cs) = hash_from ((hash * 32 % 2 ^ 32 + hash + char_to_uint c) % 2 ^ 32) cs

unfoldable pub hash_key : List ℕ → ℕ
unfolding hash_from
hash_key key = hash_from 5381 key % 256

pub hash_key-lt : (key : List ℕ) → hash_key key < 256
unfolding hash_key
hash_key-lt key = omega arith

-- The same recurrence over bytes alone, with no sign and no 32-bit word.
pub byte_hash : ℕ → List ℕ → ℕ
byte_hash hash [] = hash % 256
byte_hash hash (c ∷ cs) = byte_hash ((hash * 33 + c) % 256) cs

byte_hash_congr : (cs : List ℕ) (h k : ℕ) → h % 256 ≡ k % 256 → byte_hash h cs ≡ byte_hash k cs
unfolding byte_hash
byte_hash_congr [] h k e = e
byte_hash_congr (c ∷ cs) h k e =
    byte_hash_congr cs ((h * 33 + c) % 256) ((k * 33 + c) % 256) (omega arith)

abbrev hash_step : ℕ → ℕ → ℕ
hash_step h c = (h * 32 % 2 ^ 32 + h + char_to_uint c) % 2 ^ 32

hash_step_mod : (h c : ℕ) → hash_step h c % 256 ≡ (h * 33 + c) % 256 % 256
hash_step_mod h c = ground arith

hash_from-byte_hash : (cs : List ℕ) (h : ℕ) → hash_from h cs % 256 ≡ byte_hash h cs
unfolding hash_from byte_hash
hash_from-byte_hash [] h = refl
hash_from-byte_hash (c ∷ cs) h =
    hash_from-byte_hash cs (hash_step h c) ∙ byte_hash_congr cs _ _ (hash_step_mod h c)

-- The bucket of a key is the hash of its bytes modulo 256: neither the signedness of `char` nor
-- the wrap of the 32-bit word changes it.
pub hash_key-portable : (key : List ℕ) → hash_key key ≡ byte_hash 5381 key
unfolding hash_key
hash_key-portable key = hash_from-byte_hash key 5381
