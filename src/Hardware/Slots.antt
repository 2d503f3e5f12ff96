-- ===== src/Hardware/Slots.antt =====
-- What the slots of the sensors hold (src/hardware.c, `read_hwmon_sensors`).
use hifetch.Common.{
  Table, codes, ℕ, ◌+◌, ◌<◌, ◌≡◌, refl, Bool, true, false, not, ◌&&◌, List, [], ◌∷◌, ◌++◌, Option,
  none, some, if◌then◌else◌, arith,
}
use hifetch.Hardware.Bounds.{IsSound}
use hifetch.Hardware.Inputs.{
  and_false, is_input, has-in, inputs, inputs_in, all_inputs, sensors, sensor_entry-sensors,
  sensor_dir-sensors, read_hwmon_sensors-sensors,
}
use hifetch.Hardware.Readings.{
  IsPlain, is_temp, is_fan, is_voltage, when, reading, readings, readings_in, all_readings, shown,
  Added, Grown, Rooms, Grown-none, Grown-both, Grown-Rooms, Added-none, add_sensor-Added,
}
use hifetch.Hardware.Sensors.{
  degrees, add_sensor, sensor_entry, sensor_entries, sensor_dir, hwmon_entries, hwmon_found,
  read_hwmon_sensors,
}
use hifetch.Hardware.State.{Sensor, HardwareInfo}
use hifetch.Hardware.Sysfs.{Sysfs, path, is_hidden}
use hifetch.Strings.{has}
use hifetch.Sysinfo.State.{Formats}

module _ {D : Type 0} (f : Formats D) where
  -- The choice of the kind, with the tests on the name as Booleans.
  chosen-Grown :
      (hw : HardwareInfo D) (hidden temp fan inside input : Bool)
      → (input ≡ true → inside ≡ true)
      → Rooms f hw
      → (heat spin volt : Table (Sensor D) × List ℕ) (text : List ℕ) (h s v : D × List ℕ)
      → (not hidden && input ≡ true
          → Added f hw.temps (h ∷ []) heat.0
            × Added f hw.fans (s ∷ []) spin.0
            × Added f hw.voltages (v ∷ []) volt.0)
      → let chosen : HardwareInfo D × List ℕ =
          if hidden
          then (hw, text)
          else if temp && input
          then (record hw { temps = heat.0 }, heat.1)
          else if fan && input
          then (record hw { fans = spin.0 }, spin.1)
          else if inside && input
          then (record hw { voltages = volt.0 }, volt.1)
          else (hw, text) in
        let given = not hidden && input in
        Grown f hw
          (when (given && temp) h)
          (when (given && (not temp && fan)) s)
          (when (given && (not temp && not fan)) v)
          chosen.0
  chosen-Grown hw true temp fan inside input within rooms heat spin volt text h s v added =
      Grown-none f hw rooms
  chosen-Grown hw false temp fan inside false within rooms heat spin volt text h s v added =
      rw (and_false temp, and_false fan, and_false inside) (Grown-none f hw rooms)
  chosen-Grown hw false true fan inside true within rooms heat spin volt text h s v added = record {
    temps = (added refl).0;
    fans = Added-none f hw.fans rooms.1;
    voltages = Added-none f hw.voltages rooms.2;
  }
  chosen-Grown hw false false true inside true within rooms heat spin volt text h s v added =
      record {
        temps = Added-none f hw.temps rooms.0;
        fans = (added refl).1;
        voltages = Added-none f hw.voltages rooms.2;
      }
  chosen-Grown hw false false false true true within rooms heat spin volt text h s v added =
      record {
        temps = Added-none f hw.temps rooms.0;
        fans = Added-none f hw.fans rooms.1;
        voltages = (added refl).2;
      }
  chosen-Grown hw false false false false true within rooms heat spin volt text h s v added =
      absurd (ground (arith, within refl))

  module _ (o : Sysfs)
      (plain : (dir name : List ℕ)
        → is_input name ≡ true
        → IsPlain (o.files (path (dir ++ b'/' ∷ name)))) where
    sensor_entry-Grown :
        (dir name : List ℕ) (hw : HardwareInfo D) (text : List ℕ)
        → sensors hw < 128
        → Rooms f hw
        → Grown f hw
            (when (is_temp name) (reading f o true degrees dir name))
            (when (is_fan name) (reading f o false (codes "RPM") dir name))
            (when (is_voltage name) (reading f o true (codes "V") dir name))
            (sensor_entry f o dir name hw text).0
    unfolding sensor_entry
    sensor_entry-Grown dir name hw text free rooms =
        let grows = λ (scaled : Bool) (unit kind : List ℕ) (table : Table (Sensor D)).
          add_sensor-Added f o dir name scaled unit kind table text in
        chosen-Grown hw (is_hidden name) (has name (codes "temp")) (has name (codes "fan"))
          (has name (codes "in")) (has name (codes "_input")) (has-in name) rooms
          (add_sensor f o dir name true degrees (codes "temp") hw.temps text)
          (add_sensor f o dir name false (codes "RPM") (codes "fan") hw.fans text)
          (add_sensor f o dir name true (codes "V") (codes "voltage") hw.voltages text) text
          (reading f o true degrees dir name) (reading f o false (codes "RPM") dir name)
          (reading f o true (codes "V") dir name)
          (λ input. (
            grows true degrees (codes "temp") hw.temps (omega (arith, free)) rooms.0
                (plain dir name input),
            grows false (codes "RPM") (codes "fan") hw.fans (omega (arith, free)) rooms.1
                (plain dir name input),
            grows true (codes "V") (codes "voltage") hw.voltages (omega (arith, free)) rooms.2
                (plain dir name input),
          ))

    sensor_entries-Grown :
        (dir : List ℕ) (names : List (List ℕ)) (hw : HardwareInfo D) (text : List ℕ)
        → inputs names + sensors hw < 128
        → Rooms f hw
        → Grown f hw
            (readings f o is_temp true degrees dir names)
            (readings f o is_fan false (codes "RPM") dir names)
            (readings f o is_voltage true (codes "V") dir names)
            (sensor_entries f o dir names hw text).0
    unfolding sensor_entries
    sensor_entries-Grown dir [] hw text fits rooms = Grown-none f hw rooms
    sensor_entries-Grown dir (name ∷ names) hw text fits rooms =
        let (hw', text') = sensor_entry f o dir name hw text in
        let counted = sensor_entry-sensors f o dir name hw text (omega (arith, fits)) in
        let one = sensor_entry-Grown dir name hw text (omega (arith, fits)) rooms in
        let rest =
          sensor_entries-Grown dir names hw' text' (omega (arith, fits, counted))
            (Grown-Rooms f hw hw' _ _ _ one) in
        Grown-both f hw hw' (sensor_entries f o dir names hw' text').0 _ _ _ _ _ _ one rest

    sensor_dir-Grown :
        (dir : List ℕ) (names : Option (List (List ℕ))) (hw : HardwareInfo D) (text : List ℕ)
        → inputs_in names + sensors hw < 128
        → Rooms f hw
        → Grown f hw
            (readings_in f o is_temp true degrees dir names)
            (readings_in f o is_fan false (codes "RPM") dir names)
            (readings_in f o is_voltage true (codes "V") dir names)
            (sensor_dir f o dir names hw text).0
    unfolding sensor_dir
    sensor_dir-Grown dir none hw text fits rooms = Grown-none f hw rooms
    sensor_dir-Grown dir (some names) hw text fits rooms =
        sensor_entries-Grown dir names hw text fits rooms

    hwmon_entries-Grown :
        (entries : List (List ℕ)) (hw : HardwareInfo D) (text : List ℕ)
        → all_inputs o entries + sensors hw < 128
        → Rooms f hw
        → Grown f hw
            (all_readings f o is_temp true degrees entries)
            (all_readings f o is_fan false (codes "RPM") entries)
            (all_readings f o is_voltage true (codes "V") entries)
            (hwmon_entries f o entries hw text).0
    unfolding hwmon_entries
    hwmon_entries-Grown [] hw text fits rooms = Grown-none f hw rooms
    hwmon_entries-Grown (entry ∷ entries) hw text fits rooms =
        let dir = path (codes "/sys/class/hwmon/" ++ entry) in
        let names = if is_hidden entry then none else o.opendir dir in
        let (hw', text') = sensor_dir f o dir names hw text in
        let counted = sensor_dir-sensors f o dir names hw text (omega (arith, fits)) in
        let one = sensor_dir-Grown dir names hw text (omega (arith, fits)) rooms in
        let rest =
          hwmon_entries-Grown entries hw' text' (omega (arith, fits, counted))
            (Grown-Rooms f hw hw' _ _ _ one) in
        Grown-both f hw hw' (hwmon_entries f o entries hw' text').0 _ _ _ _ _ _ one rest

    -- With arrays of 128 slots, when /sys/class/hwmon can be read, fewer than 128 files in all its
    -- directories have "_input" in their names, and each file of such a name cannot be read or has at
    -- least one byte and fewer than 1024, the used slots of the three arrays hold exactly one sensor
    -- for each of these files, in the order of the files: a temperature if the name has "temp", else a
    -- fan if it has "fan", and else a voltage, with its unit and the number in the file, a thousandth
    -- of it except for fans. No other file gives a sensor.
    pub read_hwmon_sensors-slots :
        (hw : HardwareInfo D) (text : List ℕ) (entries : List (List ℕ))
        → IsSound hw
        → o.opendir (codes "/sys/class/hwmon") ≡ some entries
        → all_inputs o entries < 128
        → let left = (read_hwmon_sensors f o hw text).0 in
          (shown f left.temps ≡ all_readings f o is_temp true degrees entries)
          × (shown f left.fans ≡ all_readings f o is_fan false (codes "RPM") entries)
          × (shown f left.voltages ≡ all_readings f o is_voltage true (codes "V") entries)
          × (sensors left ≡ all_inputs o entries)
    unfolding read_hwmon_sensors hwmon_found
    read_hwmon_sensors-slots hw text entries sound found fits =
        let start = record hw {
          temps = record hw.temps { count = 0 };
          fans = record hw.fans { count = 0 };
          voltages = record hw.voltages { count = 0 };
        } in
        let counted = read_hwmon_sensors-sensors f o hw text entries found fits in
        let grown =
          hwmon_entries-Grown entries start text (omega (arith, fits))
            (sound.4.room, sound.5.room, sound.6.room) in
        let total : sensors (hwmon_entries f o entries start text).0 ≡ all_inputs o entries =
          rw found at counted in
        rw found (grown.temps.0, grown.fans.0, grown.voltages.0, total)
