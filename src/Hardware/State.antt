-- ===== src/Hardware/State.antt =====
-- The records that are filled (include/hardware.h). A field that is an array of bytes is the text in
-- it; a text that the code copies with `strcpy` or `strcat` is taken to fit.
use hifetch.Common.{
  Table, put, ℕ, ℤ, pos, List, [], ◌∷◌, Option, none, some, if◌then◌else◌, ltb, get_or, replicate,
}
use hifetch.Sysinfo.State.{Formats}

pub record HardwareDevice (D : Type 0) : Type 0 where
  pub name : List ℕ
  pub vendor : List ℕ
  pub model : List ℕ
  pub driver : List ℕ
  pub temp : D
  pub speed : ℤ
  pub voltage : D

-- `min` and `max` are written nowhere.
pub record Sensor (D : Type 0) : Type 0 where
  pub label : List ℕ
  pub value : D
  pub min : D
  pub max : D
  pub unit : List ℕ

pub record HardwareInfo (D : Type 0) : Type 0 where
  pub cpu : HardwareDevice D
  pub gpu : Table (HardwareDevice D)
  pub storage : Table (HardwareDevice D)
  pub network : Table (HardwareDevice D)
  pub audio : Table (HardwareDevice D)
  pub temps : Table (Sensor D)
  pub fans : Table (Sensor D)
  pub voltages : Table (Sensor D)

-- The loop over the entries of a directory, or the paths of a pattern, until `limit` slots are used.
-- `one` fills the next slot or skips the entry; the static buffer goes along.
unfoldable pub fill :
    {A : Type 0}
    → ℕ
    → A
    → (List ℕ → A → List ℕ → Option A × List ℕ)
    → List (List ℕ)
    → Table A
    → List ℕ
    → Table A × List ℕ
fill limit none_yet one [] table text = (table, text)
fill limit none_yet one (entry ∷ entries) table text =
    let (filled, after) = one entry (get_or table.slots table.count none_yet) text in
    let rest = fill limit none_yet one entries (put filled table) after in
    if ltb table.count limit then rest else (table, text)

abbrev pub max_sensors : ℕ
max_sensors = 128

abbrev empty : {A : Type 0} → ℕ → A → Table A
empty n a = record { slots = replicate n a; count = 0 }

-- The loop over what is found, if anything is.
unfoldable pub fill_found :
    {A : Type 0}
    → ℕ
    → A
    → (List ℕ → A → List ℕ → Option A × List ℕ)
    → Option (List (List ℕ))
    → Table A
    → List ℕ
    → Table A × List ℕ
fill_found limit none_yet one none table text = (table, text)
fill_found limit none_yet one (some entries) table text = fill limit none_yet one entries table text

module _ {D : Type 0} (f : Formats D) where
  abbrev pub no_device : HardwareDevice D
  no_device = record {
    name = [];
    vendor = [];
    model = [];
    driver = [];
    temp = f.of_ℕ 0;
    speed = pos 0;
    voltage = f.of_ℕ 0;
  }

  abbrev pub no_sensor : Sensor D
  no_sensor = record { label = []; value = f.of_ℕ 0; min = f.of_ℕ 0; max = f.of_ℕ 0; unit = [] }

  -- The record after `memset`.
  unfoldable pub cleared : HardwareInfo D
  cleared = record {
    cpu = no_device;
    gpu = empty 8 no_device;
    storage = empty 16 no_device;
    network = empty 8 no_device;
    audio = empty 4 no_device;
    temps = empty max_sensors no_sensor;
    fans = empty max_sensors no_sensor;
    voltages = empty max_sensors no_sensor;
  }
