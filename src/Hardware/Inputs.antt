-- ===== src/Hardware/Inputs.antt =====
-- Every file with "_input" in its name is a sensor (src/hardware.c, `read_hwmon_sensors`).
use hifetch.Common.{
  Table, codes, ℕ, ◌+◌, ◌<◌, ◌≡◌, refl, inl, inr, sym, ◌∙◌, Bool, true, false, not, ◌&&◌, List, [],
  ◌∷◌, ◌++◌, Option, none, some, if◌then◌else◌, lt→ltb, arith, Bool-cases, strstr, starts_with,
}
use hifetch.Hardware.Sensors.{
  degrees, add_sensor, sensor_entry, sensor_entries, sensor_dir, hwmon_entries, hwmon_found,
  read_hwmon_sensors,
}
use hifetch.Hardware.State.{Sensor, HardwareInfo}
use hifetch.Hardware.Sysfs.{Sysfs, path, is_hidden}
use hifetch.Strings.{has}
use hifetch.Sysinfo.State.{Formats}

strstr-tail : (c : ℕ) (text word : List ℕ) → has text word ≡ true → has (c ∷ text) word ≡ true
unfolding strstr
strstr-tail c text word h = elim (Bool-cases (starts_with (c ∷ text) word)) [
  | inl here ↦ rw here refl
  | inr later ↦ rw later h
]

strstr-front : (text word : List ℕ) → starts_with text word ≡ true → has text word ≡ true
unfolding strstr
strstr-front [] word h = rw h refl
strstr-front (c ∷ text) word h = rw h refl

input-front :
    (text : List ℕ) → starts_with text (codes "input") ≡ true → starts_with text (codes "in") ≡ true
unfolding starts_with
input-front [] h = h
input-front (a ∷ []) h = ground (arith, h)
input-front (a ∷ b ∷ text) h = ground (arith, h)

strstr-later :
    (c : ℕ) (text word : List ℕ)
    → starts_with (c ∷ text) word ≡ false
    → has (c ∷ text) word ≡ has text word
unfolding strstr
strstr-later c text word h = rw h refl

pub has-in : (name : List ℕ) → has name (codes "_input") ≡ true → has name (codes "in") ≡ true
unfolding strstr starts_with
has-in [] h = h
has-in (c ∷ name) h = elim (Bool-cases (starts_with (c ∷ name) (codes "_input"))) [
  | inl here ↦
      strstr-tail c name (codes "in")
        (strstr-front name (codes "in") (input-front name (ground (arith, here))))
  | inr later ↦
      strstr-tail c name (codes "in")
        (has-in name (sym (strstr-later c name (codes "_input") later) ∙ h))
]

pub and_false : (b : Bool) → b && false ≡ false
and_false true = refl
and_false false = refl

abbrev pub is_input : List ℕ → Bool
is_input name = not (is_hidden name) && has name (codes "_input")

abbrev pub inputs : List (List ℕ) → ℕ
inputs [] = 0
inputs (name ∷ names) = (if is_input name then 1 else 0) + inputs names

abbrev pub inputs_in : Option (List (List ℕ)) → ℕ
inputs_in none = 0
inputs_in (some names) = inputs names

-- The names in all directories of sensors.
abbrev pub all_inputs : Sysfs → List (List ℕ) → ℕ
all_inputs o [] = 0
all_inputs o (entry ∷ entries) =
    inputs_in
      (if is_hidden entry then none else o.opendir (path (codes "/sys/class/hwmon/" ++ entry)))
    + all_inputs o entries

abbrev pub sensors : {D : Type 0} → HardwareInfo D → ℕ
sensors hw = hw.temps.count + hw.fans.count + hw.voltages.count

module _ {D : Type 0} (f : Formats D) where
  add_sensor-count :
      (o : Sysfs) (dir name : List ℕ) (scaled : Bool) (unit kind : List ℕ)
      (table : Table (Sensor D)) (text : List ℕ)
      → table.count < 128
      → (add_sensor f o dir name scaled unit kind table text).0.count ≡ table.count + 1
  unfolding add_sensor
  add_sensor-count o dir name scaled unit kind table text free =
      rw (lt→ltb table.count 128 free) (omega arith)

  -- The choice of the kind, with the tests on the name as Booleans.
  chosen-sensors :
      (hw : HardwareInfo D) (hidden temp fan inside input : Bool)
      → (input ≡ true → inside ≡ true)
      → (heat spin volt : Table (Sensor D) × List ℕ) (text : List ℕ)
      → heat.0.count ≡ hw.temps.count + 1
      → spin.0.count ≡ hw.fans.count + 1
      → volt.0.count ≡ hw.voltages.count + 1
      → let chosen : HardwareInfo D × List ℕ =
          if hidden
          then (hw, text)
          else if temp && input
          then (record hw { temps = heat.0 }, heat.1)
          else if fan && input
          then (record hw { fans = spin.0 }, spin.1)
          else if inside && input
          then (record hw { voltages = volt.0 }, volt.1)
          else (hw, text) in
        sensors chosen.0 ≡ (if not hidden && input then 1 else 0) + sensors hw
  chosen-sensors hw true temp fan inside input within heat spin volt text h s v = omega arith
  chosen-sensors hw false true fan inside true within heat spin volt text h s v = omega (arith, h)
  chosen-sensors hw false false true inside true within heat spin volt text h s v = omega (arith, s)
  chosen-sensors hw false false false true true within heat spin volt text h s v = omega (arith, v)
  chosen-sensors hw false false false false true within heat spin volt text h s v =
      absurd (ground (arith, within refl))
  chosen-sensors hw false temp fan inside false within heat spin volt text h s v =
      rw (and_false temp, and_false fan, and_false inside) (omega arith)

  pub sensor_entry-sensors :
      (o : Sysfs) (dir name : List ℕ) (hw : HardwareInfo D) (text : List ℕ)
      → sensors hw < 128
      → sensors (sensor_entry f o dir name hw text).0
        ≡ (if is_input name then 1 else 0) + sensors hw
  unfolding sensor_entry
  sensor_entry-sensors o dir name hw text free =
      chosen-sensors hw (is_hidden name) (has name (codes "temp")) (has name (codes "fan"))
        (has name (codes "in")) (has name (codes "_input")) (has-in name)
        (add_sensor f o dir name true degrees (codes "temp") hw.temps text)
        (add_sensor f o dir name false (codes "RPM") (codes "fan") hw.fans text)
        (add_sensor f o dir name true (codes "V") (codes "voltage") hw.voltages text) text
        (add_sensor-count o dir name true degrees (codes "temp") hw.temps text
          (omega (arith, free)))
        (add_sensor-count o dir name false (codes "RPM") (codes "fan") hw.fans text
          (omega (arith, free)))
        (add_sensor-count o dir name true (codes "V") (codes "voltage") hw.voltages text
          (omega (arith, free)))

  sensor_entries-sensors :
      (o : Sysfs) (dir : List ℕ) (names : List (List ℕ)) (hw : HardwareInfo D) (text : List ℕ)
      → inputs names + sensors hw < 128
      → sensors (sensor_entries f o dir names hw text).0 ≡ inputs names + sensors hw
  unfolding sensor_entries
  sensor_entries-sensors o dir [] hw text fits = omega arith
  sensor_entries-sensors o dir (name ∷ names) hw text fits =
      let next = sensor_entry f o dir name hw text in
      let one = sensor_entry-sensors o dir name hw text (omega (arith, fits)) in
      let rest = sensor_entries-sensors o dir names next.0 next.1 (omega (arith, fits, one)) in
      omega (arith, one, rest)

  pub sensor_dir-sensors :
      (o : Sysfs) (dir : List ℕ) (names : Option (List (List ℕ))) (hw : HardwareInfo D)
      (text : List ℕ)
      → inputs_in names + sensors hw < 128
      → sensors (sensor_dir f o dir names hw text).0 ≡ inputs_in names + sensors hw
  unfolding sensor_dir
  sensor_dir-sensors o dir none hw text fits = omega arith
  sensor_dir-sensors o dir (some names) hw text fits =
      sensor_entries-sensors o dir names hw text fits

  hwmon_entries-sensors :
      (o : Sysfs) (entries : List (List ℕ)) (hw : HardwareInfo D) (text : List ℕ)
      → all_inputs o entries + sensors hw < 128
      → sensors (hwmon_entries f o entries hw text).0 ≡ all_inputs o entries + sensors hw
  unfolding hwmon_entries
  hwmon_entries-sensors o [] hw text fits = omega arith
  hwmon_entries-sensors o (entry ∷ entries) hw text fits =
      let dir = path (codes "/sys/class/hwmon/" ++ entry) in
      let names = if is_hidden entry then none else o.opendir dir in
      let next = sensor_dir f o dir names hw text in
      let one = sensor_dir-sensors o dir names hw text (omega (arith, fits)) in
      let rest = hwmon_entries-sensors o entries next.0 next.1 (omega (arith, fits, one)) in
      omega (arith, one, rest)

  pub read_hwmon_sensors-sensors :
      (o : Sysfs) (hw : HardwareInfo D) (text : List ℕ) (entries : List (List ℕ))
      → o.opendir (codes "/sys/class/hwmon") ≡ some entries
      → all_inputs o entries < 128
      → sensors (read_hwmon_sensors f o hw text).0 ≡ all_inputs o entries
  unfolding read_hwmon_sensors hwmon_found
  read_hwmon_sensors-sensors o hw text entries found fits =
      let start = record hw {
        temps = record hw.temps { count = 0 };
        fans = record hw.fans { count = 0 };
        voltages = record hw.voltages { count = 0 };
      } in
      let counted = hwmon_entries-sensors o entries start text (omega (arith, fits)) in
      rw found (omega (arith, counted))
