-- ===== src/Hitop/Tests.antt =====
-- The process monitor at concrete inputs.
use hifetch.Common.{
  map, codes, Real, ◌+◌, ◌-◌, ◌*◌, ◌/◌, ◌++◌, replicate, is_some, leb, get_or, none, take, length,
  filter, ltb, strstr, starts_with, Leaves, ◌≤ℤ◌, ℕ, ◌≡◌, refl, ◌⊎◌, true, false, List, [], ◌∷◌,
  some, ℤ, pos, negsuc, at_ℤ, ◌<ℤ◌, arith,
}
use hifetch.Hitop.Display.{display_processes}
use hifetch.Hitop.Filter.{get_processes-filters}
use hifetch.Hitop.Percents.{times_in, overwritten, percents, read_processes-read_processes}
use hifetch.Hitop.Reading.{ProcEntry, Times, read_line, read_processes}
use hifetch.Sysinfo.Tests.{formats}
use hifetch.Hitop.Refresh.{matches, get_processes}
use hifetch.Hitop.Shown.{ShowsCursor, display_processes-shows}
use hifetch.Hitop.Cores.{have_rows, get_cpu_info-rows}
use hifetch.Hitop.History.{record_all, empty_ring, draw_cpu_graph-record_all}
use hifetch.Hitop.Meters.{
  total_time, CpuTimes, CpuInfo, no_times, all_cores, one_core, get_cpu_info, draw_cpu_graph,
}
use mathlib.Core.List.{Perm}
use mathlib.Core.List.Perm
use hifetch.Hitop.Cursor.{IsValid, Keeps, handle_input-Keeps, handle_input-requests}
use hifetch.Hitop.Input.{
  key_dc, key_end, last, terminate, Key, byte, Input, confirms, handle_input, perform, decode,
  decode_byte, with_selected, show_kill_dialog, kill_process,
}
use hifetch.Hitop.State.{Process, ProcessList, Monitor, kill, renice}

abbrev process : ℤ → List ℕ → Process ℕ
process pid command = record {
  pid = pid;
  ppid = pos 1;
  user = [];
  cpu = 0;
  mem = 0;
  vsz = 0;
  rss = 0;
  stat = [];
  command = command;
}

abbrev listing : ProcessList ℕ
listing = record {
  processes =
      process (pos 70) (b's' ∷ [])
      ∷ process (pos 80) (b't' ∷ [])
      ∷ process (pos 90) (b'v' ∷ [])
      ∷ [];
  count = 2;
  selected = pos 1;
  offset = pos 0;
  sort_by = 2;
  reverse = true;
  filter = [];
}

abbrev monitor : Monitor ℕ
monitor = record { running = true; show_help = false; plist = listing; requests = [] }

abbrev press : Key → Key → Input
press k answer = record { key = k; answer = answer; typed = [] }

listing-IsValid : IsValid listing
listing-IsValid = record {
  low = omega arith;
  high = omega arith;
  stored = omega arith;
  sort_key = omega arith;
}

handle_input-Keeps_example :
    (m' : Monitor ℕ) × (handle_input monitor (press (byte 120) (byte 121)) ≡ some m')
    × Keeps monitor m'
handle_input-Keeps_example =
    handle_input-Keeps monitor (press (byte 120) (byte 121)) listing-IsValid refl

abbrev killed : Monitor ℕ
killed = record monitor { requests = kill (pos 80) ∷ [] }

kills : handle_input monitor (press (byte 120) (byte 121)) ≡ some killed
unfolding handle_input perform decode decode_byte with_selected show_kill_dialog kill_process
kills = refl

handle_input-requests_example :
    (killed.requests ≡ monitor.requests)
    ⊎ ((p : Process ℕ) × (at_ℤ listing.processes listing.selected ≡ some p)
        × (((killed.requests ≡ kill p.pid ∷ monitor.requests)
              × (confirms (byte 121) ≡ true)
              × (pos 0 <ℤ p.pid))
            ⊎ (killed.requests ≡ renice p.pid (negsuc 0) ∷ monitor.requests)
            ⊎ (killed.requests ≡ renice p.pid (pos 1) ∷ monitor.requests)))
handle_input-requests_example =
    handle_input-requests monitor killed (press (byte 120) (byte 121)) kills

display_processes-shows_example :
    let (plist', answer) = display_processes 20 listing in
    (pos 0 ≤ℤ plist'.offset) × Leaves answer (ShowsCursor 20 listing)
display_processes-shows_example =
    display_processes-shows 20 listing listing-IsValid (omega arith) (omega arith)

-- A `qsort` that finds its array in order.
abbrev in_order : (Process ℕ → Process ℕ → ℤ) → List (Process ℕ) → List (Process ℕ)
in_order order xs = xs

abbrev no_order : List ℕ → List ℕ → ℤ
no_order a b = pos 0

abbrev entries : List (Process ℕ)
entries = process (pos 70) (codes "sh") ∷ process (pos 90) (codes "vi") ∷ []

abbrev searching : ProcessList ℕ
searching = record listing { filter = b'i' ∷ [] }

get_processes-filters_example :
    (plist' : ProcessList ℕ) × (get_processes ltb no_order in_order (some entries) searching
      ≡ some plist')
    × Perm (take plist'.count plist'.processes) (filter (matches (b'i' ∷ [])) entries)
    × (plist'.count ≡ length (filter (matches (b'i' ∷ [])) entries))
    × (length plist'.processes ≡ length searching.processes)
    × (plist'.selected ≡ searching.selected)
get_processes-filters_example =
    get_processes-filters ltb no_order in_order (λ order l. refl) (λ order l. Perm.refl l) entries
      searching (omega arith)

abbrev emptied : Monitor ℕ
emptied = record monitor { plist = record searching { count = 0; selected = pos 0 } }

finds_vi : length (filter (matches (b'i' ∷ [])) entries) ≡ 1
unfolding filter matches strstr starts_with
finds_vi = refl

is_last : decode key_end ≡ last
unfolding decode
is_last = refl

is_kill : decode key_dc ≡ terminate
unfolding decode
is_kill = refl

abbrev percent_clock : Real ℕ
percent_clock = record {
  zero = 0;
  huge = 1000000000;
  add = λ a b. a + b;
  sub = λ a b. a - b;
  less = λ a b. ltb a b;
}

abbrev times : CpuTimes
times = record no_times { user = 10; idle = 30 }

abbrev processors : CpuInfo ℕ
processors = record {
  usage = replicate 32 0;
  cores = 0;
  total_usage = 0;
  history = replicate 60 0;
  history_pos = 0;
}

get_cpu_info-rows_example :
    is_some (
      get_cpu_info percent_clock
        (λ a b. a * 100 / b)
        (some (all_cores times ∷ one_core (pos 0) times ∷ one_core (negsuc 0) times ∷ []))
        (processors, replicate 32 no_times))
    ≡ have_rows
        (total_time (get_or (replicate 32 no_times) 0 no_times))
        (all_cores times ∷ one_core (pos 0) times ∷ one_core (negsuc 0) times ∷ [])
get_cpu_info-rows_example =
    get_cpu_info-rows percent_clock (λ a b. a * 100 / b)
      (all_cores times ∷ one_core (pos 0) times ∷ one_core (negsuc 0) times ∷ []) processors
      (replicate 32 no_times) refl refl

draw_cpu_graph-record_all_example :
    draw_cpu_graph percent_clock
      (λ v. v * 8 / 100)
      (record_all (50 ∷ 80 ∷ []) (empty_ring percent_clock (λ v. v * 8 / 100)))
      49
      5
    ≡ leb 5 (get_or (replicate 60 0 ++ (50 ∷ 80 ∷ [])) (2 + (10 + 49)) 0 * 8 / 100)
draw_cpu_graph-record_all_example =
    draw_cpu_graph-record_all percent_clock (λ v. v * 8 / 100) (50 ∷ 80 ∷ []) 49 5 (omega arith)
      (omega arith) (omega arith)

-- A process that has run for some time.
abbrev entry_of : ℤ → ℕ → ProcEntry
entry_of pid time = record {
  number = pid;
  line = some (record {
    pid = pid;
    comm = codes "(p)";
    state = b'R';
    ppid = pos 1;
    utime = time;
    stime = 0;
    vsize = 4096;
    rss = pos 1;
  });
  uid = none;
  cmdline = none;
}

abbrev first_times : Times
first_times = record {
  prev_total_jiffies = 100;
  prev_process_time = none;
  prev_process_count = 2048;
  mem_total = 1000;
}

-- The second reading finds another process at the first position.
read_processes-read_processes_example :
    let first = read_processes formats first_times 200 (7 ∷ 8 ∷ []) (entry_of (pos 4) 30 ∷ []) in
    map
      (λ (p : Process ℕ). p.cpu)
      (read_processes formats first_times 300 first.1
        (entry_of (pos 3) 90 ∷ entry_of (pos 4) 40 ∷ [])).0
    ≡ take 2048 (
        percents formats first_times 300
          (overwritten (times_in (entry_of (pos 4) 30 ∷ [])) (7 ∷ 8 ∷ []))
          0
          (times_in (entry_of (pos 3) 90 ∷ entry_of (pos 4) 40 ∷ [])))
unfolding read_line
read_processes-read_processes_example =
    read_processes-read_processes formats first_times first_times 200 300 (7 ∷ 8 ∷ [])
      (entry_of (pos 4) 30 ∷ []) (entry_of (pos 3) 90 ∷ entry_of (pos 4) 40 ∷ []) refl (omega arith)
