-- ===== src/Hardware/Aliases.antt =====
-- Two pointers to one static buffer (src/hardware.c, `get_gpu_hardware`).
use hifetch.Common.{
  codes, ℕ, ◌≤◌, ◌<◌, ◌≡◌, refl, true, false, not, List, ◌∷◌, ◌++◌, ◌==◌, length, take, replicate,
  length-take, length-append, length-replicate, arith, Leaves,
}
use hifetch.Hardware.Devices.{vendor_name, gpu_vendors, gpu_card}
use hifetch.Hardware.State.{HardwareDevice}
use hifetch.Hardware.Sysfs.{Sysfs, held, read_into, path, before}
use hifetch.Strings.{trim_string}
use hifetch.Strings.Commands.{c_string}
use hifetch.Strings.Secure.{bytes, read_file_fast-text}
use hifetch.Sysinfo.State.{Formats}

-- The text of a file that is read as a value.
abbrev pub value : List ℕ → List ℕ
value got = trim_string (c_string got)

-- A file with a text that fits in the buffer.
pub record HasValue (got : List ℕ) : Type 0 where
  pub short : length got < 1024
  pub some_bytes : 1 ≤ length got
  pub some_text : (length (value got) == 0) ≡ false

held-length : (text : List ℕ) → length (held text) ≡ 1024
unfolding held
held-length text = omega (
  arith,
  length-take 1024 (text ++ replicate 1024 0),
  length-append text (replicate 1024 0),
  length-replicate {A = ℕ} 1024 0,
)

pub read_into-plain :
    (got text : List ℕ)
    → 1 ≤ length got
    → length got < 1024
    → read_into (bytes got) text ≡ (not (length (value got) == 0), value got)
unfolding read_into
read_into-plain got text some_bytes short =
    let size = held-length text in
    let (read, after) =
      read_file_fast-text got (held text) some_bytes (omega (arith, size, short))
        (omega (arith, size)) in
    rw (read, after) refl

read_into-value :
    (got text : List ℕ) → HasValue got → read_into (bytes got) text ≡ (true, value got)
read_into-value got text h = rw (read_into-plain got text h.some_bytes h.short, h.some_text) refl

module _ {D : Type 0} (f : Formats D) where
  -- Where the files of a card have texts, the card's maker is decided by the text of its device
  -- identifier, whatever its vendor identifier says, and its model is the subsystem's identifier
  -- twice.
  pub gpu_card-device :
      (o : Sysfs) (place : List ℕ) (gpu : HardwareDevice D) (text vendor device subsystem : List ℕ)
      → let card = before (codes "/device") place in
        o.files (path (card ++ codes "/device/vendor")) ≡ bytes vendor
        → o.files (path (card ++ codes "/device/device")) ≡ bytes device
        → o.files (path (card ++ codes "/device/subsystem_device")) ≡ bytes subsystem
        → HasValue vendor
        → HasValue device
        → HasValue subsystem
        → Leaves (gpu_card f o place gpu text).0 (λ found.
          (found.vendor ≡ vendor_name gpu_vendors (value device))
          × (found.model ≡ take 127 (value subsystem ++ b':' ∷ value subsystem)))
  unfolding gpu_card Leaves
  gpu_card-device o place gpu text vendor device subsystem v d s has_v has_d has_s =
      rw
        (
          v,
          d,
          s,
          read_into-value vendor text has_v,
          read_into-value device (value vendor) has_d,
          read_into-value subsystem (value device) has_s,
        )
        (refl, refl)
