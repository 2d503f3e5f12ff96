-- ===== src/Hardware/Detected.antt =====
-- The bounds of the arrays through all readers (src/hardware.c, `detect_hardware`).
use hifetch.Common.{
  Table, IsWithin, put-IsWithin, restart, codes, ℕ, inl, inr, Bool, ◌&&◌, List, [], ◌∷◌, ◌++◌,
  Option, none, some, if◌then◌else◌, ltb, ltb→lt, Bool-cases,
}
use hifetch.Hardware.Bounds.{
  IsSound, fill_found-IsWithin, cleared-IsSound, with_cpu, with_gpu, with_storage, with_network,
  with_audio, with_temps, with_fans, with_voltages,
}
use hifetch.Hardware.Detect.{detect_hardware}
use hifetch.Hardware.Devices.{
  gpu_card, network_device, audio_card, block_device, get_cpu_hardware, get_gpu_hardware,
  get_network_hardware, get_audio_hardware, scan_block_devices,
}
use hifetch.Hardware.Sensors.{
  add_sensor, sensor_entry, sensor_entries, sensor_dir, hwmon_entries, hwmon_found,
  read_hwmon_sensors,
}
use hifetch.Hardware.State.{Sensor, HardwareInfo, no_device, cleared, max_sensors}
use hifetch.Hardware.Sysfs.{Sysfs, path, is_hidden}
use hifetch.Strings.{has}
use hifetch.Sysinfo.State.{Formats}

module _ {D : Type 0} (f : Formats D) where
  get_gpu_hardware-IsSound :
      (o : Sysfs) (hw : HardwareInfo D) (text : List ℕ)
      → IsSound hw
      → IsSound (get_gpu_hardware f o hw text).0
  unfolding get_gpu_hardware
  get_gpu_hardware-IsSound o hw text h =
      with_gpu hw _
        (fill_found-IsWithin 8 (no_device f) (gpu_card f o)
          (o.glob (codes "/sys/class/drm/card*/device/vendor")) (record hw.gpu { count = 0 }) text
          (restart 8 hw.gpu h.0))
        h

  get_network_hardware-IsSound :
      (o : Sysfs) (hw : HardwareInfo D) (text : List ℕ)
      → IsSound hw
      → IsSound (get_network_hardware f o hw text).0
  unfolding get_network_hardware
  get_network_hardware-IsSound o hw text h =
      with_network hw _
        (fill_found-IsWithin 8 (no_device f) (network_device f o)
          (o.opendir (codes "/sys/class/net")) (record hw.network { count = 0 }) text
          (restart 8 hw.network h.2))
        h

  get_audio_hardware-IsSound :
      (o : Sysfs) (hw : HardwareInfo D) (text : List ℕ)
      → IsSound hw
      → IsSound (get_audio_hardware f o hw text).0
  unfolding get_audio_hardware
  get_audio_hardware-IsSound o hw text h =
      with_audio hw _
        (fill_found-IsWithin 4 (no_device f) (audio_card f o)
          (o.glob (codes "/proc/asound/card*/id")) (record hw.audio { count = 0 }) text
          (restart 4 hw.audio h.3))
        h

  scan_block_devices-IsSound :
      (o : Sysfs) (hw : HardwareInfo D) (text : List ℕ)
      → IsSound hw
      → IsSound (scan_block_devices f o hw text).0
  unfolding scan_block_devices
  scan_block_devices-IsSound o hw text h =
      with_storage hw _
        (fill_found-IsWithin 16 (no_device f) (block_device f o)
          (o.opendir (codes "/sys/class/block")) (record hw.storage { count = 0 }) text
          (restart 16 hw.storage h.1))
        h

  add_sensor-IsWithin :
      (o : Sysfs) (dir name : List ℕ) (scaled : Bool) (unit kind : List ℕ)
      (table : Table (Sensor D)) (text : List ℕ)
      → IsWithin max_sensors table
      → IsWithin max_sensors (add_sensor f o dir name scaled unit kind table text).0
  unfolding add_sensor
  add_sensor-IsWithin o dir name scaled unit kind table text h =
      elim (Bool-cases (ltb table.count max_sensors)) [
        | inr full ↦ rw full h
        | inl free ↦
            rw free
              (put-IsWithin max_sensors (some _) table (ltb→lt table.count max_sensors free) h)
      ]

  sensor_entry-IsSound :
      (o : Sysfs) (dir name : List ℕ) (hw : HardwareInfo D) (text : List ℕ)
      → IsSound hw
      → IsSound (sensor_entry f o dir name hw text).0
  unfolding sensor_entry
  sensor_entry-IsSound o dir name hw text h = elim (Bool-cases (is_hidden name)) [
    | inl hidden ↦ rw hidden h
    | inr shown ↦ elim (Bool-cases (has name (codes "temp") && has name (codes "_input"))) [
      | inl heat ↦
          rw (shown, heat)
            (with_temps hw _ (add_sensor-IsWithin o dir name _ _ _ hw.temps text h.4) h)
      | inr no_heat ↦ elim (Bool-cases (has name (codes "fan") && has name (codes "_input"))) [
        | inl spin ↦
            rw (shown, no_heat, spin)
              (with_fans hw _ (add_sensor-IsWithin o dir name _ _ _ hw.fans text h.5) h)
        | inr no_spin ↦ elim (Bool-cases (has name (codes "in") && has name (codes "_input"))) [
          | inl volt ↦
              rw (shown, no_heat, no_spin, volt)
                (with_voltages hw _ (add_sensor-IsWithin o dir name _ _ _ hw.voltages text h.6) h)
          | inr other ↦ rw (shown, no_heat, no_spin, other) h
        ]
      ]
    ]
  ]

  sensor_entries-IsSound :
      (o : Sysfs) (dir : List ℕ) (names : List (List ℕ)) (hw : HardwareInfo D) (text : List ℕ)
      → IsSound hw
      → IsSound (sensor_entries f o dir names hw text).0
  unfolding sensor_entries
  sensor_entries-IsSound o dir [] hw text h = h
  sensor_entries-IsSound o dir (name ∷ names) hw text h =
      let next = sensor_entry f o dir name hw text in
      sensor_entries-IsSound o dir names next.0 next.1 (sensor_entry-IsSound o dir name hw text h)

  sensor_dir-IsSound :
      (o : Sysfs) (dir : List ℕ) (names : Option (List (List ℕ))) (hw : HardwareInfo D)
      (text : List ℕ)
      → IsSound hw
      → IsSound (sensor_dir f o dir names hw text).0
  unfolding sensor_dir
  sensor_dir-IsSound o dir none hw text h = h
  sensor_dir-IsSound o dir (some names) hw text h = sensor_entries-IsSound o dir names hw text h

  hwmon_entries-IsSound :
      (o : Sysfs) (entries : List (List ℕ)) (hw : HardwareInfo D) (text : List ℕ)
      → IsSound hw
      → IsSound (hwmon_entries f o entries hw text).0
  unfolding hwmon_entries
  hwmon_entries-IsSound o [] hw text h = h
  hwmon_entries-IsSound o (entry ∷ entries) hw text h =
      let dir = path (codes "/sys/class/hwmon/" ++ entry) in
      let names = if is_hidden entry then none else o.opendir dir in
      let next = sensor_dir f o dir names hw text in
      hwmon_entries-IsSound o entries next.0 next.1 (sensor_dir-IsSound o dir names hw text h)

  hwmon_found-IsSound :
      (o : Sysfs) (entries : Option (List (List ℕ))) (hw : HardwareInfo D) (text : List ℕ)
      → IsSound hw
      → IsSound (hwmon_found f o entries hw text).0
  unfolding hwmon_found
  hwmon_found-IsSound o none hw text h = h
  hwmon_found-IsSound o (some entries) hw text h = hwmon_entries-IsSound o entries hw text h

  read_hwmon_sensors-IsSound :
      (o : Sysfs) (hw : HardwareInfo D) (text : List ℕ)
      → IsSound hw
      → IsSound (read_hwmon_sensors f o hw text).0
  unfolding read_hwmon_sensors
  read_hwmon_sensors-IsSound o hw text h =
      let heats = record hw { temps = record hw.temps { count = 0 } } in
      let spins = record heats { fans = record hw.fans { count = 0 } } in
      let start = with_voltages spins _ (restart max_sensors hw.voltages h.6) (
        with_fans heats _ (restart max_sensors hw.fans h.5)
          (with_temps hw _ (restart max_sensors hw.temps h.4) h)) in
      hwmon_found-IsSound o (o.opendir (codes "/sys/class/hwmon")) _ text start

  -- Whatever the system answers, the record that is filled has arrays of their sizes, and no list has
  -- more entries than its array has slots.
  pub detect_hardware-IsSound :
      (o : Sysfs) (buffer text : List ℕ) → IsSound (detect_hardware f o buffer text).0
  unfolding detect_hardware
  detect_hardware-IsSound o buffer text =
      let cpu = get_cpu_hardware f o buffer (cleared f).cpu text in
      let gpu = get_gpu_hardware f o (record (cleared f) { cpu = cpu.0 }) cpu.1 in
      let network = get_network_hardware f o gpu.0 gpu.1 in
      let audio = get_audio_hardware f o network.0 network.1 in
      let storage = scan_block_devices f o audio.0 audio.1 in
      read_hwmon_sensors-IsSound o storage.0 storage.1 (
        scan_block_devices-IsSound o audio.0 audio.1 (
          get_audio_hardware-IsSound o network.0 network.1 (
            get_network_hardware-IsSound o gpu.0 gpu.1 (
              get_gpu_hardware-IsSound o (record (cleared f) { cpu = cpu.0 }) cpu.1
                (with_cpu (cleared f) cpu.0 (cleared-IsSound f))))))
