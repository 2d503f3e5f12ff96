-- ===== src/Hardware/Sensors.antt =====
-- The sensors (src/hardware.c, `read_hwmon_sensors`).
use hifetch.Common.{
  Table, write, codes, ℕ, ◌+◌, Bool, true, false, ◌&&◌, pos, List, [], ◌∷◌, ◌++◌, Option, none,
  some, ◌==◌, if◌then◌else◌, ltb, take, get_or,
}
use hifetch.Hardware.State.{Sensor, HardwareInfo, no_sensor, max_sensors}
use hifetch.Hardware.Sysfs.{Sysfs, path, read_at, read_sysfs_float, is_hidden}
use hifetch.Strings.{has}
use hifetch.Sysinfo.State.{Formats}

-- The first piece between underscores, which `strtok` gives.
unfoldable pub up_to_underscore : List ℕ → List ℕ
up_to_underscore [] = []
up_to_underscore (c ∷ name) = let rest = up_to_underscore name in if c == b'_' then [] else c ∷ rest

unfoldable pub first_token : List ℕ → List ℕ
first_token [] = []
first_token (c ∷ name) =
    let rest = first_token name in if c == b'_' then rest else up_to_underscore (c ∷ name)

abbrev pub degrees : List ℕ
degrees = 194 ∷ 176 ∷ codes "C"

module _ {D : Type 0} (f : Formats D) where
  -- A sensor in the next slot, unless all are used: `scaled` says whether the value is in thousandths.
  unfoldable pub add_sensor :
      Sysfs
      → List ℕ
      → List ℕ
      → Bool
      → List ℕ
      → List ℕ
      → Table (Sensor D)
      → List ℕ
      → Table (Sensor D) × List ℕ
  add_sensor o dir name scaled unit kind table text =
      let (value, after_value) = read_sysfs_float f o (dir ++ b'/' ∷ name) text in
      let (label, after_label) =
        read_at o (dir ++ b'/' ∷ (first_token name ++ codes "_label")) after_value in
      let slot = get_or table.slots table.count (no_sensor f) in
      if ltb table.count max_sensors
      then (
        write true
            (record slot {
              value = if scaled then f.div value (f.of_ℕ 1000) else value;
              unit = unit;
              label =
                  if label then after_label else take 63 (kind ++ f.dec (pos (table.count + 1)));
            })
            table,
        after_label,
      )
      else (table, text)

  -- One file of a directory: the first kind whose name it has.
  unfoldable pub sensor_entry :
      Sysfs → List ℕ → List ℕ → HardwareInfo D → List ℕ → HardwareInfo D × List ℕ
  sensor_entry o dir name hw text =
      let (temps, after_temp) = add_sensor o dir name true degrees (codes "temp") hw.temps text in
      let (fans, after_fan) =
        add_sensor o dir name false (codes "RPM") (codes "fan") hw.fans text in
      let (voltages, after_voltage) =
        add_sensor o dir name true (codes "V") (codes "voltage") hw.voltages text in
      if is_hidden name
      then (hw, text)
      else if has name (codes "temp") && has name (codes "_input")
      then (record hw { temps = temps }, after_temp)
      else if has name (codes "fan") && has name (codes "_input")
      then (record hw { fans = fans }, after_fan)
      else if has name (codes "in") && has name (codes "_input")
      then (record hw { voltages = voltages }, after_voltage)
      else (hw, text)

  unfoldable pub sensor_entries :
      Sysfs → List ℕ → List (List ℕ) → HardwareInfo D → List ℕ → HardwareInfo D × List ℕ
  sensor_entries o dir [] hw text = (hw, text)
  sensor_entries o dir (name ∷ names) hw text =
      let (hw', text') = sensor_entry o dir name hw text in sensor_entries o dir names hw' text'

  -- A directory that cannot be read, or one with its names.
  unfoldable pub sensor_dir :
      Sysfs → List ℕ → Option (List (List ℕ)) → HardwareInfo D → List ℕ → HardwareInfo D × List ℕ
  sensor_dir o dir none hw text = (hw, text)
  sensor_dir o dir (some names) hw text = sensor_entries o dir names hw text

  unfoldable pub hwmon_entries :
      Sysfs → List (List ℕ) → HardwareInfo D → List ℕ → HardwareInfo D × List ℕ
  hwmon_entries o [] hw text = (hw, text)
  hwmon_entries o (entry ∷ entries) hw text =
      let dir = path (codes "/sys/class/hwmon/" ++ entry) in
      let names = if is_hidden entry then none else o.opendir dir in
      let (hw', text') = sensor_dir o dir names hw text in hwmon_entries o entries hw' text'

  unfoldable pub hwmon_found :
      Sysfs → Option (List (List ℕ)) → HardwareInfo D → List ℕ → HardwareInfo D × List ℕ
  hwmon_found o none hw text = (hw, text)
  hwmon_found o (some entries) hw text = hwmon_entries o entries hw text

  unfoldable pub read_hwmon_sensors : Sysfs → HardwareInfo D → List ℕ → HardwareInfo D × List ℕ
  read_hwmon_sensors o hw text =
      let start = record hw {
        temps = record hw.temps { count = 0 };
        fans = record hw.fans { count = 0 };
        voltages = record hw.voltages { count = 0 };
      } in
      hwmon_found o (o.opendir (codes "/sys/class/hwmon")) start text
