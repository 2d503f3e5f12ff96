-- ===== src/Sysinfo/Tests.antt =====
-- The facts about a small system (src/sysinfo.c), with whole numbers for times and sizes.
use hifetch.Common.{
  codes, Real, ℕ, ◌+◌, ◌-◌, ◌*◌, ◌/◌, ◌%◌, ◌≡◌, refl, true, ℤ, pos, negsuc, List, [], ◌∷◌, ◌++◌,
  none, some, ltb, length, Leaves,
}
use hifetch.Sysinfo.Gather.{null, CacheState, init_fast_cache, gather, get_system_info}
use hifetch.Sysinfo.State.{Sources, Formats}
use hifetch.Sysinfo.Texts.{intel, nvidia}
use hifetch.Sysinfo.Twice.{get_system_info-get_system_info}

abbrev pub clock : Real ℕ
clock = record {
  zero = 0;
  huge = 1000000000;
  add = λ a b. a + b;
  sub = λ a b. a - b;
  less = λ a b. ltb a b;
}

-- Two digits.
abbrev pub two_digits : ℤ → List ℕ
two_digits (pos n) = (n / 10 % 10 + 48) ∷ (n % 10 + 48) ∷ []
two_digits (negsuc n) = b'-' ∷ []

abbrev pub formats : Formats ℕ
formats = record {
  dec = two_digits;
  fixed = λ d. two_digits (pos d);
  scan_lu = λ text. some (length text);
  atoi = λ text. pos (length text);
  atof = λ text. length text;
  of_ℕ = λ n. n;
  div = λ a b. a / b;
  mul = λ a b. a * b;
  truncate = λ d. pos d;
}

-- Up for a day, two hours and three minutes, with two cards.
abbrev pub machine : Sources
machine = record {
  gethostname = some (b'h' ∷ []);
  user = some (b'u' ∷ []);
  os_release = none;
  uname = none;
  sysinfo_uptime = some 93785;
  shell_variable = some (codes "/z");
  scaling_cur_freq = none;
  cpuinfo_max_freq = none;
  cpuinfo = none;
  processors = pos 4;
  meminfo = none;
  swap_meminfo = none;
  root = none;
  lspci = some (intel ++ 10 ∷ nvidia);
  pacman_local = some ((b'a' ∷ []) ∷ []);
  flatpak_app = none;
  user_flatpak_app = none;
  snap_dir = none;
  xdg_current_desktop = none;
  desktop_session = none;
  wayland_display = none;
  x_display = none;
  term_program = none;
  terminal_variable = none;
  wlan0_operstate = none;
  eth0_operstate = none;
  bat0_capacity = none;
  bat0_status = none;
  adp1_online = none;
  ac0_online = none;
  acad_online = none;
  lang = none;
}

abbrev pub cold : CacheState ℕ
cold = record { cached_info = null; last_update = 0 }

get_system_info-get_system_info_example :
    Leaves
      (get_system_info clock formats 5000000 machine (init_fast_cache clock formats true cold))
      (λ r.
        (r.0 ≡ gather clock formats machine)
        × Leaves
            (get_system_info clock formats 5000009 (record machine { user = none }) r.1)
            (λ r'. r'.0 ≡ r.0))
get_system_info-get_system_info_example =
    get_system_info-get_system_info clock formats 5000000 5000009 machine
      (record machine { user = none }) cold refl
