-- ===== src/Hardware/Devices.antt =====
-- The processor and the lists of devices (src/hardware.c, `get_cpu_hardware` to
-- `scan_block_devices`).
use hifetch.Common.{
  codes, ℕ, Bool, false, ◌&&◌, ◌||◌, ℤ, pos, negsuc, List, [], ◌∷◌, ◌++◌, Option, none, some, ◌==◌,
  if◌then◌else◌, ltb, length, take, drop,
}
use hifetch.Hardware.State.{HardwareDevice, HardwareInfo, fill_found, no_device}
use hifetch.Hardware.Sysfs.{
  Sysfs, path, read_at, read_sysfs_float, read_sysfs_int, driver_of, before, is_hidden,
}
use hifetch.Strings.{has}
use hifetch.Strings.Commands.{c_string}
use hifetch.Strings.Secure.{read_file_fast}
use hifetch.Sysinfo.Facts.{after_first, strtok_lines}
use hifetch.Sysinfo.State.{Formats}

-- The name of the first identifier that is in the text.
unfoldable pub vendor_name : List (List ℕ × List ℕ) → List ℕ → List ℕ
vendor_name [] id = codes "Unknown"
vendor_name ((number, name) ∷ vendors) id = if has id number then name else vendor_name vendors id

abbrev pub gpu_vendors : List (List ℕ × List ℕ)
gpu_vendors =
    (codes "0x10de", codes "NVIDIA")
    ∷ (codes "0x1002", codes "AMD")
    ∷ (codes "0x8086", codes "Intel")
    ∷ []

abbrev pub network_vendors : List (List ℕ × List ℕ)
network_vendors =
    (codes "0x8086", codes "Intel")
    ∷ (codes "0x14e4", codes "Broadcom")
    ∷ (codes "0x10ec", codes "Realtek")
    ∷ []

abbrev pub audio_vendors : List (List ℕ × List ℕ)
audio_vendors =
    (codes "0x8086", codes "Intel")
    ∷ (codes "0x1002", codes "AMD")
    ∷ (codes "0x10de", codes "NVIDIA")
    ∷ []

abbrev is_zero : ℤ → Bool
is_zero (pos n) = n == 0
is_zero (negsuc n) = false

-- Two bytes after the colon: a line with a colon has a byte after it.
abbrev after_colon : ℕ → List ℕ → List ℕ → List ℕ
after_colon size line old = elim (after_first b':' line) [
  | some value ↦ take size (drop 1 value)
  | none ↦ old
]

module _ {D : Type 0} (f : Formats D) where
  -- The loop over the lines of the file.
  unfoldable pub cpu_lines : List (List ℕ) → HardwareDevice D → HardwareDevice D
  cpu_lines [] cpu = cpu
  cpu_lines (line ∷ lines) cpu = cpu_lines lines (
      if has line (codes "vendor_id")
      then record cpu { vendor = after_colon 63 line cpu.vendor }
      else if has line (codes "model name")
      then record cpu { model = after_colon 127 line cpu.model }
      else cpu)

  -- `buffer` is the array of 4096 bytes, with any content.
  unfoldable pub get_cpu_hardware :
      Sysfs → List ℕ → HardwareDevice D → List ℕ → HardwareDevice D × List ℕ
  get_cpu_hardware o buffer cpu text =
      let named = record cpu { name = codes "CPU" } in
      let (read, after) = read_file_fast (o.files (codes "/proc/cpuinfo")) buffer in
      let known = if read then cpu_lines (strtok_lines (c_string after)) named else named in
      let (temp, text') =
        read_sysfs_float f o (codes "/sys/class/thermal/thermal_zone0/temp") text in
      (record known { temp = f.div temp (f.of_ℕ 1000) }, text')

  -- One card: `vendor_id` and `device_id` both point to the static buffer.
  unfoldable pub gpu_card :
      Sysfs → List ℕ → HardwareDevice D → List ℕ → Option (HardwareDevice D) × List ℕ
  gpu_card o place gpu text =
      let card = before (codes "/device") place in
      let (vendor_id, after_vendor) = read_at o (card ++ codes "/device/vendor") text in
      let (device_id, after_device) = read_at o (card ++ codes "/device/device") after_vendor in
      let (subsys, after_subsys) =
        read_at o (card ++ codes "/device/subsystem_device") after_device in
      if vendor_id && device_id
      then (
        some (record gpu {
          name = codes "GPU";
          vendor = vendor_name gpu_vendors after_device;
          model = if subsys then take 127 (after_subsys ++ b':' ∷ after_subsys) else after_subsys;
          driver = driver_of (o.readlink (path (card ++ codes "/device/driver"))) gpu.driver;
        }),
        after_subsys,
      )
      else (none, after_device)

  unfoldable pub get_gpu_hardware : Sysfs → HardwareInfo D → List ℕ → HardwareInfo D × List ℕ
  get_gpu_hardware o hw text =
      let start = record hw.gpu { count = 0 } in
      let (gpu, after) =
        fill_found 8 (no_device f) (gpu_card o)
          (o.glob (codes "/sys/class/drm/card*/device/vendor")) start text in
      (record hw { gpu = gpu }, after)

  -- One network device, with the same two pointers.
  unfoldable pub network_device :
      Sysfs → List ℕ → HardwareDevice D → List ℕ → Option (HardwareDevice D) × List ℕ
  network_device o name net text =
      let place = codes "/sys/class/net/" ++ name in
      let (vendor_id, after_vendor) = read_at o (place ++ codes "/device/vendor") text in
      let (device_id, after_device) = read_at o (place ++ codes "/device/device") after_vendor in
      let known = vendor_id && device_id in
      let (speed, after_speed) = read_sysfs_int f o (place ++ codes "/speed") after_device in
      if is_hidden name
      then (none, text)
      else if o.stat (path (place ++ codes "/device"))
      then (
        some (record net {
          name = name;
          vendor = if known then vendor_name network_vendors after_device else net.vendor;
          model = if known then after_device else net.model;
          driver = driver_of (o.readlink (path (place ++ codes "/device/driver"))) net.driver;
          speed = speed;
        }),
        after_speed,
      )
      else (none, text)

  unfoldable pub get_network_hardware : Sysfs → HardwareInfo D → List ℕ → HardwareInfo D × List ℕ
  get_network_hardware o hw text =
      let start = record hw.network { count = 0 } in
      let (network, after) =
        fill_found 8 (no_device f) (network_device o) (o.opendir (codes "/sys/class/net")) start
          text in
      (record hw { network = network }, after)

  unfoldable pub audio_card :
      Sysfs → List ℕ → HardwareDevice D → List ℕ → Option (HardwareDevice D) × List ℕ
  audio_card o place audio text =
      let (card_id, after_id) = read_at o place text in
      let card = before (codes "/id") place in
      let (vendor_id, after_vendor) = read_at o (card ++ codes "/../device/vendor") after_id in
      if card_id
      then (
        some (record audio {
          name = codes "Audio";
          model = after_id;
          vendor = if vendor_id then vendor_name audio_vendors after_vendor else audio.vendor;
        }),
        after_vendor,
      )
      else (none, after_id)

  unfoldable pub get_audio_hardware : Sysfs → HardwareInfo D → List ℕ → HardwareInfo D × List ℕ
  get_audio_hardware o hw text =
      let start = record hw.audio { count = 0 } in
      let (audio, after) =
        fill_found 4 (no_device f) (audio_card o) (o.glob (codes "/proc/asound/card*/id")) start
          text in
      (record hw { audio = audio }, after)

  unfoldable pub block_device :
      Sysfs → List ℕ → HardwareDevice D → List ℕ → Option (HardwareDevice D) × List ℕ
  block_device o name storage text =
      let place = codes "/sys/class/block/" ++ name in
      let (model, after_model) = read_at o (place ++ codes "/device/model") text in
      let (vendor, after_vendor) = read_at o (place ++ codes "/device/vendor") after_model in
      let (rotational, after) =
        read_sysfs_int f o (place ++ codes "/queue/rotational") after_vendor in
      if is_hidden name || ltb 4 (length name)
      then (none, text)
      else if model
      then (
        some (record storage {
          name = name;
          model = after_model ++ (if is_zero rotational then codes " (SSD)" else codes " (HDD)");
          vendor = if vendor then after_vendor else storage.vendor;
        }),
        after,
      )
      else (none, after_model)

  unfoldable pub scan_block_devices : Sysfs → HardwareInfo D → List ℕ → HardwareInfo D × List ℕ
  scan_block_devices o hw text =
      let start = record hw.storage { count = 0 } in
      let (storage, after) =
        fill_found 16 (no_device f) (block_device o) (o.opendir (codes "/sys/class/block")) start
          text in
      (record hw { storage = storage }, after)
