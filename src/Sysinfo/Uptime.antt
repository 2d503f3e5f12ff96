-- ===== src/Sysinfo/Uptime.antt =====
-- The uptime that is shown (src/sysinfo.c, `get_uptime`).
use hifetch.Common.{Real, ℕ, ◌+◌, ◌*◌, ◌≤◌, ◌<◌, ◌≡◌, refl, some, arith}
use hifetch.Sysinfo.Facts.{get_uptime, uptime_text, uptime_days, uptime_hours, uptime_minutes}
use hifetch.Sysinfo.State.{SystemInfo, Sources, Formats}

module _ {D : Type 0} (k : Real D) (f : Formats D) where
  -- The text shows days, hours and minutes that make up the uptime to less than a minute, with less
  -- than 24 hours and less than 60 minutes.
  pub get_uptime-parts :
      (s : Sources) (info : SystemInfo D) (up : ℕ)
      → s.sysinfo_uptime ≡ some up
      → (days : ℕ) × (hours : ℕ) × (minutes : ℕ) × ((get_uptime k f s info).uptime
          ≡ uptime_text k f days hours minutes)
        × (hours < 24)
        × (minutes < 60)
        × (days * 86400 + hours * 3600 + minutes * 60 ≤ up)
        × (up < days * 86400 + hours * 3600 + minutes * 60 + 60)
  unfolding get_uptime
  get_uptime-parts s info up h = (
    uptime_days up,
    uptime_hours up,
    uptime_minutes up,
    rw h refl,
    omega arith,
    omega arith,
    omega arith,
    omega arith,
  )
