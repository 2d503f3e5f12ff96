-- ===== src/Hardware/Detect.antt =====
-- All readers in their order (src/hardware.c, `detect_hardware`).
use hifetch.Common.{ℕ, List}
use hifetch.Hardware.Devices.{
  get_cpu_hardware, get_gpu_hardware, get_network_hardware, get_audio_hardware, scan_block_devices,
}
use hifetch.Hardware.Sensors.{read_hwmon_sensors}
use hifetch.Hardware.State.{HardwareInfo, cleared}
use hifetch.Hardware.Sysfs.{Sysfs}
use hifetch.Sysinfo.State.{Formats}

module _ {D : Type 0} (f : Formats D) where
  -- `buffer` is what the array on the stack of `get_cpu_hardware` holds, `text` the static buffer.
  unfoldable pub detect_hardware : Sysfs → List ℕ → List ℕ → HardwareInfo D × List ℕ
  detect_hardware o buffer text =
      let (cpu, after_cpu) = get_cpu_hardware f o buffer (cleared f).cpu text in
      let (with_gpu, after_gpu) =
        get_gpu_hardware f o (record (cleared f) { cpu = cpu }) after_cpu in
      let (with_network, after_network) = get_network_hardware f o with_gpu after_gpu in
      let (with_audio, after_audio) = get_audio_hardware f o with_network after_network in
      let (with_storage, after_storage) = scan_block_devices f o with_audio after_audio in
      read_hwmon_sensors f o with_storage after_storage
