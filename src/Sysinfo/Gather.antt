-- ===== src/Sysinfo/Gather.antt =====
-- All getters in their order, behind a cache of one second (src/sysinfo.c, `init_fast_cache` and
-- `get_system_info`).
use hifetch.Common.{Real, Bool, true, false, pos, [], Option, none, some, if◌then◌else◌}
use hifetch.Sysinfo.Desktop.{
  get_desktop_info, get_detailed_theme_info, get_terminal_info, get_network_info, get_battery_info,
  get_display_info, get_locale_info,
}
use hifetch.Sysinfo.Facts.{
  get_hostname, get_username, get_os_info, get_kernel, get_uptime, get_shell, get_cpu_info,
}
use hifetch.Sysinfo.State.{SystemInfo, Sources, Formats}
use hifetch.Sysinfo.Tables.{get_memory_info, get_disk_info, get_all_gpus, get_packages}

-- `cached_info` before `init_fast_cache`, after an `mmap` that failed, and with a record.
pub data Cached (D : Type 0) : Type 0 where
  null map_failed : Cached D
  mapped : SystemInfo D → Cached D

pub record CacheState (D : Type 0) : Type 0 where
  pub cached_info : Cached D
  pub last_update : D

module _ {D : Type 0} (k : Real D) (f : Formats D) where
  -- The record after `memset`, and the one that `mmap` gives.
  abbrev pub zeroed : SystemInfo D
  zeroed = record {
    hostname = [];
    username = [];
    os_name = [];
    kernel = [];
    uptime = [];
    shell = [];
    cpu_model = [];
    cpu_cores = pos 0;
    cpu_freq = k.zero;
    memory = [];
    swap = [];
    disk = [];
    gpu = [];
    packages = [];
    de = [];
    de_version = [];
    wm = [];
    wm_theme = [];
    gtk_theme = [];
    qt_theme = [];
    icon_theme = [];
    cursor_theme = [];
    font = [];
    terminal = [];
    terminal_font = [];
    local_ip = [];
    battery = [];
    locale = [];
    display = [];
  }

  unfoldable pub init_fast_cache : Bool → CacheState D → CacheState D
  init_fast_cache mmap c = record c { cached_info = if mmap then mapped zeroed else map_failed }

  unfoldable pub gather : Sources → SystemInfo D
  gather s = get_locale_info k f s (
      get_display_info k f s (
        get_battery_info k f s (
          get_network_info k f s (
            get_terminal_info k f s (
              get_detailed_theme_info k f (
                get_desktop_info k f s (
                  get_packages k f s (
                    get_all_gpus k f s (
                      get_disk_info k f s (
                        get_memory_info k f s (
                          get_cpu_info k f s (
                            get_shell k f s (
                              get_uptime k f s (
                                get_kernel k f s (
                                  get_os_info k f s
                                    (get_username k f s (get_hostname k f s zeroed)))))))))))))))))

  -- A copy from the place that a failed `mmap` leaves, or to or from a null pointer, is `none`.
  unfoldable pub fetch : Cached D → Option (SystemInfo D)
  fetch null = none
  fetch map_failed = none
  fetch (mapped info) = some info

  unfoldable pub store : D → SystemInfo D → CacheState D → Option (CacheState D)
  store now info c = elim c.cached_info [
    | null ↦ none
    | map_failed ↦ some c
    | mapped old ↦ some (record { cached_info = mapped info; last_update = now })
  ]

  abbrev pub is_null : Cached D → Bool
  is_null null = true
  is_null map_failed = false
  is_null (mapped info) = false

  -- `one_second` is 1000000.
  abbrev pub is_fresh : D → CacheState D → Bool
  is_fresh now c =
      if is_null c.cached_info then false else k.less (k.sub now c.last_update) (f.of_ℕ 1000000)

  unfoldable pub answer : D → Sources → CacheState D → Option (SystemInfo D × CacheState D)
  answer now s c = elim (store now (gather s) c) [ some c' ↦ some (gather s, c') | none ↦ none ]

  unfoldable pub get_system_info : D → Sources → CacheState D → Option (SystemInfo D × CacheState D)
  get_system_info now s c =
      if is_fresh now c
      then (elim (fetch c.cached_info) [ some info ↦ some (info, c) | none ↦ none ])
      else answer now s c
