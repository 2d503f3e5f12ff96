-- ===== src/Sysinfo/Gpus.antt =====
-- The list of graphics cards (src/sysinfo.c, `get_all_gpus`).
use hifetch.Common.{
  All, Real, append-All, ℕ, ◌≤◌, ◌<◌, inl, inr, ◌&&◌, ◌||◌, List, [], ◌∷◌, ◌++◌, Option, none, some,
  arith, ◌==◌, if◌then◌else◌, ltb, leb, ltb→lt, length, take, length-append, Bool-cases,
}
use hifetch.Strings.{trim_string}
use hifetch.Sysinfo.Facts.{strtok_lines}
use hifetch.Sysinfo.State.{SystemInfo, Sources, Formats}
use hifetch.Sysinfo.Tables.{labelled, gpu_text, gpu_lines, gpus_of, get_all_gpus}
use hifetch.Sysinfo.Texts.{too_long}

abbrev pub Fits : List ℕ → Type 0
Fits text = length text < 256

gpu_text-Fits : (line : List ℕ) → Fits (gpu_text line)
unfolding gpu_text
gpu_text-Fits line = checked (labelled line)
  where
    checked : (text : List ℕ) → Fits (if leb 256 (length text) then too_long else text)
    checked text = elim (Bool-cases (leb 256 (length text))) [
      | inl long ↦ rw long (omega arith)
      | inr short ↦ rw short (ground (arith, short))
    ]

-- At most eight texts that fit.
record IsListed (gpus : List (List ℕ)) : Type 0 where
  few : length gpus ≤ 8
  fit : All Fits gpus

gpu_lines-IsListed : (lines gpus : List (List ℕ)) → IsListed gpus → IsListed (gpu_lines lines gpus)
unfolding gpu_lines
gpu_lines-IsListed [] gpus h = h
gpu_lines-IsListed (line ∷ lines) gpus h = elim (Bool-cases (ltb (length gpus) 8)) [
  | inr full ↦ rw full h
  | inl room ↦
      let text = trim_string line in
      elim (Bool-cases (ltb 0 (length text) && ltb (length text) 236)) [
        | inr skipped ↦ rw (room, skipped) (gpu_lines-IsListed lines gpus h)
        | inl kept ↦
            rw (room, kept)
              (gpu_lines-IsListed lines (gpus ++ gpu_text text ∷ []) (record {
                few =
                    omega
                      (arith, ltb→lt (length gpus) 8 room, length-append gpus (gpu_text text ∷ []));
                fit = append-All Fits gpus (gpu_text text) h.fit (gpu_text-Fits text);
              }))
      ]
]

gpus_of-IsListed :
    (lspci : Option (List ℕ)) → IsListed (gpus_of lspci) × (1 ≤ length (gpus_of lspci))
unfolding gpus_of
gpus_of-IsListed none = (record { few = omega arith; fit = (omega arith, tt) }, omega arith)
gpus_of-IsListed (some all_gpus) =
    let gpus = gpu_lines (strtok_lines (take 8191 all_gpus)) [] in
    let listed =
      gpu_lines-IsListed (strtok_lines (take 8191 all_gpus)) []
        (record { few = omega arith; fit = tt }) in
    elim (Bool-cases ((length all_gpus == 0) || (length gpus == 0))) [
      | inl nothing ↦
          rw nothing (record { few = omega arith; fit = (omega arith, tt) }, omega arith)
      | inr something ↦ rw something (listed, ground (arith, something))
    ]

module _ {D : Type 0} (k : Real D) (f : Formats D) where
  -- Whatever `lspci` prints, one to eight cards are listed, and the text of each fits in its array of
  -- 256 bytes.
  pub get_all_gpus-Fits :
      (s : Sources) (info : SystemInfo D)
      → let gpus = (get_all_gpus k f s info).gpu in
        (1 ≤ length gpus) × (length gpus ≤ 8) × All Fits gpus
  unfolding get_all_gpus
  get_all_gpus-Fits s info =
      let (listed, some_card) = gpus_of-IsListed s.lspci in (some_card, listed.few, listed.fit)
