-- ===== src/Hardware/Tests.antt =====
-- The hardware of a small machine (src/hardware.c), with whole numbers for temperatures.
use hifetch.Common.{
  codes, ℕ, ◌≡◌, refl, true, false, List, [], ◌∷◌, ◌++◌, Option, none, some, if◌then◌else◌,
  replicate, arith, Bool-cases, inl, inr, take, str_eq, Leaves, strstr, starts_with,
}
use hifetch.Hardware.Aliases.{HasValue, value, gpu_card-device}
use hifetch.Hardware.Detect.{detect_hardware}
use hifetch.Hardware.Devices.{vendor_name, gpu_vendors, gpu_card, block_device}
use hifetch.Hardware.Bounds.{IsSound, cleared-IsSound}
use hifetch.Hardware.Detected.{detect_hardware-IsSound}
use hifetch.Hardware.Inputs.{sensors, all_inputs}
use hifetch.Hardware.Readings.{IsPlain, is_temp, is_fan, is_voltage, all_readings, shown}
use hifetch.Hardware.Slots.{read_hwmon_sensors-slots}
use hifetch.Hardware.Sensors.{degrees, read_hwmon_sensors}
use hifetch.Hardware.State.{no_device, cleared}
use hifetch.Hardware.Sysfs.{Sysfs, before}
use hifetch.Strings.{trim_string, trim_end, skip_blanks}
use hifetch.Strings.Commands.{c_string}
use hifetch.Strings.Secure.{File, closed, bytes}
use hifetch.Sysinfo.Tests.{formats}

abbrev file_at : List (List ℕ × List ℕ) → List ℕ → File
file_at [] place = closed
file_at ((known, text) ∷ files) place =
    if str_eq known place then bytes text else file_at files place

abbrev names_at : List (List ℕ × List (List ℕ)) → List ℕ → Option (List (List ℕ))
names_at [] place = none
names_at ((known, names) ∷ dirs) place =
    if str_eq known place then some names else names_at dirs place

abbrev board : Sysfs
board = record {
  files = file_at (
      (codes "/sys/class/drm/card0/device/vendor", codes "0x10de\n")
      ∷ (codes "/sys/class/drm/card0/device/device", codes "0x2204\n")
      ∷ (codes "/sys/class/drm/card0/device/subsystem_device", codes "0x1467\n")
      ∷ (codes "/sys/class/block/sda/device/model", codes "Disk")
      ∷ (codes "/sys/class/block/nvme0n1/device/model", codes "Drive")
      ∷ []);
  readlink = λ place. none;
  stat = λ place. false;
  glob = names_at (
      (codes "/sys/class/drm/card*/device/vendor", codes "/sys/class/drm/card0/device/vendor" ∷ [])
      ∷ []);
  opendir = names_at (
      (codes "/sys/class/hwmon", codes "." ∷ codes "hwmon0" ∷ [])
      ∷ (
        codes "/sys/class/hwmon/hwmon0",
        codes "name" ∷ codes "temp1_input" ∷ codes "curr1_input" ∷ [],
      )
      ∷ []);
}

-- A drive whose name is longer than four bytes is skipped.
long_name : (block_device formats board (codes "nvme0n1") (no_device formats) []).0 ≡ none
unfolding block_device
long_name = refl

vendor_value : HasValue (codes "0x10de\n")
unfolding trim_string trim_end skip_blanks c_string
vendor_value = record { short = omega arith; some_bytes = omega arith; some_text = refl }

device_value : HasValue (codes "0x2204\n")
unfolding trim_string trim_end skip_blanks c_string
device_value = record { short = omega arith; some_bytes = omega arith; some_text = refl }

subsystem_value : HasValue (codes "0x1467\n")
unfolding trim_string trim_end skip_blanks c_string
subsystem_value = record { short = omega arith; some_bytes = omega arith; some_text = refl }

gpu_card-device_example :
    Leaves
      (gpu_card formats board (codes "/sys/class/drm/card0/device/vendor") (no_device formats) []).0
      (λ found.
        (found.vendor ≡ vendor_name gpu_vendors (value (codes "0x2204\n")))
        × (found.model ≡ take 127 (value (codes "0x1467\n") ++ b':' ∷ value (codes "0x1467\n"))))
unfolding str_eq before strstr starts_with
gpu_card-device_example =
    gpu_card-device formats board (codes "/sys/class/drm/card0/device/vendor") (no_device formats)
      [] (codes "0x10de\n") (codes "0x2204\n") (codes "0x1467\n") refl refl refl vendor_value
      device_value subsystem_value

detect_hardware-IsSound_example : IsSound (detect_hardware formats board (replicate 4096 0) []).0
detect_hardware-IsSound_example = detect_hardware-IsSound formats board (replicate 4096 0) []

-- The files of a list whose texts are plain are plain.
abbrev AllPlain : List (List ℕ × List ℕ) → Type 0
AllPlain [] = Unit
AllPlain ((known, text) ∷ files) = IsPlain (bytes text) × AllPlain files

file_at-IsPlain :
    (files : List (List ℕ × List ℕ)) (place : List ℕ)
    → AllPlain files
    → IsPlain (file_at files place)
file_at-IsPlain [] place h = tt
file_at-IsPlain ((known, text) ∷ files) place (first, rest) =
    elim (Bool-cases (str_eq known place)) [
      | inl e ↦ rw e first
      | inr e ↦ rw e (file_at-IsPlain files place rest)
    ]

-- A board with a temperature of 45 degrees, a fan that cannot be read and a current.
abbrev sensor_files : List (List ℕ × List ℕ)
sensor_files =
    (codes "/sys/class/hwmon/hwmon0/temp1_input", codes "45000\n")
    ∷ (codes "/sys/class/hwmon/hwmon0/curr1_input", codes "12000\n")
    ∷ []

abbrev sensor_board : Sysfs
sensor_board = record {
  files = file_at sensor_files;
  readlink = λ place. none;
  stat = λ place. false;
  glob = names_at [];
  opendir = names_at (
      (codes "/sys/class/hwmon", codes "." ∷ codes "hwmon0" ∷ [])
      ∷ (
        codes "/sys/class/hwmon/hwmon0",
        codes "name" ∷ codes "temp1_input" ∷ codes "fan1_input" ∷ codes "curr1_input" ∷ [],
      )
      ∷ []);
}

abbrev hwmon_names : List (List ℕ)
hwmon_names = codes "." ∷ codes "hwmon0" ∷ []

three_inputs : all_inputs sensor_board hwmon_names ≡ 3
unfolding strstr starts_with str_eq
three_inputs = refl

read_hwmon_sensors-slots_example :
    let left = (read_hwmon_sensors formats sensor_board (cleared formats) []).0 in
    (shown formats left.temps ≡ all_readings formats sensor_board is_temp true degrees hwmon_names)
    × (shown formats left.fans
        ≡ all_readings formats sensor_board is_fan false (codes "RPM") hwmon_names)
    × (shown formats left.voltages
        ≡ all_readings formats sensor_board is_voltage true (codes "V") hwmon_names)
    × (sensors left ≡ all_inputs sensor_board hwmon_names)
unfolding str_eq
read_hwmon_sensors-slots_example =
    read_hwmon_sensors-slots formats sensor_board
      (λ dir name input.
        file_at-IsPlain sensor_files (take 511 (dir ++ b'/' ∷ name))
          ((omega arith, omega arith), ((omega arith, omega arith), tt)))
      (cleared formats) [] hwmon_names (cleared-IsSound formats) refl (omega (arith, three_inputs))

-- The readings of the board: the temperature's, the fan's and the current's, a thousandth of each but
-- the fan's.
board_readings :
    (all_readings formats sensor_board is_temp true degrees hwmon_names
      ≡ (formats.div (formats.atof (codes "45000")) (formats.of_ℕ 1000), degrees) ∷ [])
    × (all_readings formats sensor_board is_fan false (codes "RPM") hwmon_names
        ≡ (formats.of_ℕ 0, codes "RPM") ∷ [])
    × (all_readings formats sensor_board is_voltage true (codes "V") hwmon_names
        ≡ (formats.div (formats.atof (codes "12000")) (formats.of_ℕ 1000), codes "V") ∷ [])
unfolding strstr starts_with str_eq trim_string trim_end skip_blanks c_string
board_readings = (refl, refl, refl)
