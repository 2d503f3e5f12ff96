-- ===== src/Hitop/State.antt =====
-- The state of the process monitor (include/hitop.h, `Process` and `ProcessList`, and the globals of
-- src/hitop.c). A `double` is any type `D`.
use hifetch.Common.{ℕ, Bool, List, ℤ}

pub record Process (D : Type 0) : Type 0 where
  pub pid : ℤ
  pub ppid : ℤ
  pub user : List ℕ
  pub cpu : D
  pub mem : D
  pub vsz : ℕ
  pub rss : ℕ
  pub stat : List ℕ
  pub command : List ℕ

-- `processes` is the whole array, of which the first `count` are shown.
pub record ProcessList (D : Type 0) : Type 0 where
  pub processes : List (Process D)
  pub count : ℕ
  pub selected : ℤ
  pub offset : ℤ
  pub sort_by : ℕ
  pub reverse : Bool
  pub filter : List ℕ

-- What the monitor asks of the system.
pub data Request : Type 0 where
  kill : ℤ → Request
  renice : ℤ → ℤ → Request

-- `running`, `show_help`, `plist`, and the requests made so far, the latest first.
pub record Monitor (D : Type 0) : Type 0 where
  pub running : Bool
  pub show_help : Bool
  pub plist : ProcessList D
  pub requests : List Request
