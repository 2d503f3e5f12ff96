-- ===== src/Hardware/Readings.antt =====
-- The readings of the files of sensors, and the tables that hold them (src/hardware.c,
-- `read_hwmon_sensors`).
use hifetch.Common.{
  Table, used, take_next, codes, ℕ, ◌≤◌, ◌<◌, ◌≡◌, refl, ap, sym, ◌∙◌, Bool, true, false, not, ◌&&◌,
  List, [], ◌∷◌, ◌++◌, map, Option, none, some, ◌==◌, if◌then◌else◌, length, length-set, lt→ltb,
  arith,
}
use hifetch.Hardware.Aliases.{value, read_into-plain}
use hifetch.Hardware.Inputs.{is_input}
use hifetch.Hardware.Sensors.{add_sensor}
use hifetch.Hardware.State.{Sensor, HardwareInfo, max_sensors}
use hifetch.Hardware.Sysfs.{Sysfs, path, is_hidden, read_into, read_sysfs_float}
use hifetch.Strings.{has}
use hifetch.Strings.Secure.{File, closed, unreadable, bytes, read_file_fast}
use hifetch.Sysinfo.State.{Formats}
use mathlib.Core.List.{map-append, append-nil, append_assoc}

-- A file that cannot be read, or one with a text that fits the buffer and is not empty.
abbrev pub IsPlain : File → Type 0
IsPlain closed = Unit
IsPlain unreadable = Unit
IsPlain (bytes got) = (1 ≤ length got) × (length got < 1024)

-- The kinds of a file.
abbrev pub is_temp : List ℕ → Bool
is_temp name = is_input name && has name (codes "temp")

abbrev pub is_fan : List ℕ → Bool
is_fan name = is_input name && (not (has name (codes "temp")) && has name (codes "fan"))

abbrev pub is_voltage : List ℕ → Bool
is_voltage name = is_input name && (not (has name (codes "temp")) && not (has name (codes "fan")))

abbrev pub when : {A : Type 0} → Bool → A → List A
when true a = a ∷ []
when false a = []

module _ {D : Type 0} (f : Formats D) where
  -- The number in a file, and zero if it cannot be read or has no text.
  abbrev pub number_in : File → D
  number_in closed = f.of_ℕ 0
  number_in unreadable = f.of_ℕ 0
  number_in (bytes got) = if length (value got) == 0 then f.of_ℕ 0 else f.atof (value got)

  -- The value and the unit that a file of a directory gives.
  abbrev pub reading : Sysfs → Bool → List ℕ → List ℕ → List ℕ → D × List ℕ
  reading o scaled unit dir name =
      let number = number_in (o.files (path (dir ++ b'/' ∷ name))) in
      (if scaled then f.div number (f.of_ℕ 1000) else number, unit)

  -- The readings of the files of one kind in a directory, in their order.
  abbrev pub readings :
      Sysfs → (List ℕ → Bool) → Bool → List ℕ → List ℕ → List (List ℕ) → List (D × List ℕ)
  readings o kind scaled unit dir [] = []
  readings o kind scaled unit dir (name ∷ names) =
      when (kind name) (reading o scaled unit dir name) ++ readings o kind scaled unit dir names

  abbrev pub readings_in :
      Sysfs → (List ℕ → Bool) → Bool → List ℕ → List ℕ → Option (List (List ℕ)) → List (D × List ℕ)
  readings_in o kind scaled unit dir none = []
  readings_in o kind scaled unit dir (some names) = readings o kind scaled unit dir names

  -- The readings of one kind in all directories of sensors.
  abbrev pub all_readings :
      Sysfs → (List ℕ → Bool) → Bool → List ℕ → List (List ℕ) → List (D × List ℕ)
  all_readings o kind scaled unit [] = []
  all_readings o kind scaled unit (entry ∷ entries) =
      let dir = path (codes "/sys/class/hwmon/" ++ entry) in
      readings_in o kind scaled unit dir (if is_hidden entry then none else o.opendir dir)
      ++ all_readings o kind scaled unit entries

  -- The values and units of the slots in use.
  abbrev pub shown : Table (Sensor D) → List (D × List ℕ)
  shown table = map (λ sensor. (sensor.value, sensor.unit)) (used table)

  -- A table of 128 slots whose used ones show some more readings.
  abbrev pub Added : Table (Sensor D) → List (D × List ℕ) → Table (Sensor D) → Type 0
  Added table more table' =
      (shown table' ≡ shown table ++ more) × (length table'.slots ≡ max_sensors)

  pub record Grown (hw : HardwareInfo D) (heats spins volts : List (D × List ℕ))
      (hw' : HardwareInfo D) : Type 0 where
    pub temps : Added hw.temps heats hw'.temps
    pub fans : Added hw.fans spins hw'.fans
    pub voltages : Added hw.voltages volts hw'.voltages

  -- The three tables have their slots.
  abbrev pub Rooms : HardwareInfo D → Type 0
  Rooms hw =
      (length hw.temps.slots ≡ max_sensors)
      × (length hw.fans.slots ≡ max_sensors)
      × (length hw.voltages.slots ≡ max_sensors)

  pub Added-none :
      (table : Table (Sensor D)) → length table.slots ≡ max_sensors → Added table [] table
  Added-none table room = (sym (append-nil (shown table)), room)

  Added-both :
      (t t' t'' : Table (Sensor D)) (more more' : List (D × List ℕ))
      → Added t more t'
      → Added t' more' t''
      → Added t (more ++ more') t''
  Added-both t t' t'' more more' (first, _) (second, room) =
      (second ∙ ap (λ r. r ++ more') first ∙ append_assoc (shown t) more more', room)

  pub Grown-none : (hw : HardwareInfo D) → Rooms hw → Grown hw [] [] [] hw
  Grown-none hw (t, s, v) = record {
    temps = Added-none hw.temps t;
    fans = Added-none hw.fans s;
    voltages = Added-none hw.voltages v;
  }

  pub Grown-both :
      (hw hw' hw'' : HardwareInfo D) (t s v t' s' v' : List (D × List ℕ))
      → Grown hw t s v hw'
      → Grown hw' t' s' v' hw''
      → Grown hw (t ++ t') (s ++ s') (v ++ v') hw''
  Grown-both hw hw' hw'' t s v t' s' v' g g' = record {
    temps = Added-both hw.temps hw'.temps hw''.temps t t' g.temps g'.temps;
    fans = Added-both hw.fans hw'.fans hw''.fans s s' g.fans g'.fans;
    voltages = Added-both hw.voltages hw'.voltages hw''.voltages v v' g.voltages g'.voltages;
  }

  pub Grown-Rooms :
      (hw hw' : HardwareInfo D) (t s v : List (D × List ℕ)) → Grown hw t s v hw' → Rooms hw'
  Grown-Rooms hw hw' t s v g = (g.temps.1, g.fans.1, g.voltages.1)

  float-number :
      (file : File) (text : List ℕ)
      → IsPlain file
      → (let (there, after) = read_into file text in if there then f.atof after else f.of_ℕ 0)
        ≡ number_in file
  float-number closed text h = unfold read_into read_file_fast in refl
  float-number unreadable text h = unfold read_into read_file_fast in refl
  float-number (bytes got) text (some_bytes, short) =
      rw (read_into-plain got text some_bytes short) (choice (length (value got) == 0))
    where
      choice :
          (empty : Bool)
          → (if not empty then f.atof (value got) else f.of_ℕ 0)
            ≡ (if empty then f.of_ℕ 0 else f.atof (value got))
      choice true = refl
      choice false = refl

  pub add_sensor-Added :
      (o : Sysfs) (dir name : List ℕ) (scaled : Bool) (unit kind : List ℕ)
      (table : Table (Sensor D)) (text : List ℕ)
      → table.count < 128
      → length table.slots ≡ max_sensors
      → IsPlain (o.files (path (dir ++ b'/' ∷ name)))
      → Added table
          (reading o scaled unit dir name ∷ [])
          (add_sensor f o dir name scaled unit kind table text).0
  unfolding add_sensor read_sysfs_float
  add_sensor-Added o dir name scaled unit kind table text free room plain =
      rw
        (
          lt→ltb table.count 128 free,
          take_next table.slots table.count _ (omega (arith, free, room)),
          map-append,
          float-number (o.files (path (dir ++ b'/' ∷ name))) text plain,
        )
        (refl, length-set table.slots table.count _ ∙ room)
