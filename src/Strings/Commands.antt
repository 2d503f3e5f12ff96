-- ===== src/Strings/Commands.antt =====
-- The output of a command in one of 256 buffers (src/utils.c, `optimize_memory_pools` and
-- `execute_cmd_fast`). A buffer holds the C string in it.
use hifetch.Common.{
  ℕ, zero, suc, ◌+◌, ◌-◌, ◌%◌, Bool, true, false, ◌||◌, List, [], ◌∷◌, ◌++◌, Option, none, some,
  ◌==◌, if◌then◌else◌, ltb, leb, length, get_or, set,
}
use hifetch.Strings.{trim_string}

abbrev pub buf_size : ℕ
buf_size = 4096

abbrev pub max_cmd_len : ℕ
max_cmd_len = 2048

-- `none` in `buffers` is a null pointer.
pub record Buffers : Type 0 where
  pub buffers : List (Option (List ℕ))
  pub fallback : List ℕ
  pub pool_index : ℕ
  pub pool_initialized : Bool

-- What a caller gets.
pub data Pointer : Type 0 where
  pooled : ℕ → Pointer
  in_fallback : Pointer

unfoldable pub text_at : Pointer → Buffers → Option (List ℕ)
text_at (pooled i) b = get_or b.buffers i none
text_at in_fallback b = some b.fallback

-- `maps` says of each buffer whether `mmap`, or `malloc` after it, succeeds.
unfoldable pub new_buffers : (ℕ → Bool) → ℕ → List (Option (List ℕ))
new_buffers maps zero = []
new_buffers maps (suc n) =
    let rest = new_buffers (λ i. maps (i + 1)) n in (if maps 0 then some [] else none) ∷ rest

unfoldable pub optimize_memory_pools : (ℕ → Bool) → Buffers → Buffers
optimize_memory_pools maps b =
    if b.pool_initialized
    then b
    else record b { buffers = new_buffers maps 256; pool_initialized = true }

-- The text before the first zero byte.
unfoldable pub c_string : List ℕ → List ℕ
c_string [] = []
c_string (c ∷ cs) = let rest = c_string cs in if c == 0 then [] else c ∷ rest

-- The loop that reads, with `n` reads done: a read asks for as many bytes as fit.
unfoldable pub read_all : (ℕ → ℕ → List ℕ) → ℕ → ℕ → List ℕ → Option (List ℕ)
read_all fread zero n got = none
read_all fread (suc fuel) n got = elim (ltb (length got) (buf_size - 1)) [
  | false ↦ some got
  | true ↦
      let more = fread n (buf_size - 1 - length got) in
      elim (length more == 0) [
        | true ↦ some got
        | false ↦ elim (leb (buf_size - 1) (length (got ++ more))) [
          | true ↦ some (got ++ more)
          | false ↦ read_all fread fuel (suc n) (got ++ more)
        ]
      ]
]

-- The write to the buffer that was taken.
unfoldable pub write_to : Pointer → List ℕ → Buffers → Buffers
write_to (pooled i) text b = record b { buffers = set b.buffers i (some text) }
write_to in_fallback text b = record b { fallback = text }

-- The next buffer, or the one all callers share, with zeros, where that is null.
unfoldable pub take_buffer : Buffers → Pointer × Buffers
take_buffer b =
    let i = b.pool_index % 256 in
    let next = record b { pool_index = (b.pool_index + 1) % 256 } in
    elim (get_or b.buffers i none) [
      | some text ↦ (pooled i, next)
      | none ↦ (in_fallback, record next { fallback = [] })
    ]

-- The output is read to its end, or to the end of the buffer.
unfoldable pub read_into : Option (ℕ → ℕ → List ℕ) → Pointer × Buffers → Option Pointer × Buffers
read_into none (pointer, b) = (none, b)
read_into (some fread) (pointer, b) = elim (read_all fread buf_size 0 []) [
  | none ↦ (none, b)
  | some got ↦
      let text = trim_string (c_string got) in
      (if length text == 0 then none else some pointer, write_to pointer text b)
]

-- `popen` is `none` where it fails; the answer `none` is a null pointer.
unfoldable pub execute_cmd_fast :
    (ℕ → Bool) → Option (List ℕ) → Option (ℕ → ℕ → List ℕ) → Buffers → Option Pointer × Buffers
execute_cmd_fast maps none popen b = (none, b)
execute_cmd_fast maps (some cmd) popen b =
    if (length cmd == 0) || ltb max_cmd_len (length cmd)
    then (none, b)
    else read_into popen (take_buffer (optimize_memory_pools maps b))
