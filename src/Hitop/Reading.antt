-- ===== src/Hitop/Reading.antt =====
-- The read loop of the process list (src/process.c, `get_processes`). A line of /proc is taken to
-- have the fields that `sscanf` asks for.
use hifetch.Common.{
  codes, ℕ, suc, ◌-◌, ◌*◌, ◌/◌, ◌%◌, ◌^◌, Bool, true, false, ◌&&◌, ℤ, pos, negsuc, ltb_ℤ, List, [],
  ◌∷◌, Option, none, some, ◌==◌, if◌then◌else◌, ltb, add64, sub64, length, take, get_or, set,
  replicate, visit, used,
}
use hifetch.Hitop.Refresh.{get_processes}
use hifetch.Hitop.State.{Process, ProcessList}
use hifetch.Strings.Commands.{c_string}
use hifetch.Sysinfo.State.{Formats}
use mathlib.Core.Option

-- What `sscanf` reads of /proc/<pid>/stat.
pub record StatLine : Type 0 where
  pub pid : ℤ
  pub comm : List ℕ
  pub state : ℕ
  pub ppid : ℤ
  pub utime : ℕ
  pub stime : ℕ
  pub vsize : ℕ
  pub rss : ℤ

-- An entry of /proc: the number that `atoi` makes of its name, the line of its file `stat`, the
-- number in its line "Uid:" with the name that `getpwuid` gives, and the bytes of its command line.
-- `none` is a file that cannot be opened or an empty one.
pub record ProcEntry : Type 0 where
  pub number : ℤ
  pub line : Option StatLine
  pub uid : Option (ℤ × Option (List ℕ))
  pub cmdline : Option (List ℕ)

-- The static variables; `none` is a null pointer.
pub record Times : Type 0 where
  pub prev_total_jiffies : ℕ
  pub prev_process_time : Option (List ℕ)
  pub prev_process_count : ℕ
  pub mem_total : ℕ

abbrev pub max_processes : ℕ
max_processes = 2048

-- The array of the previous times: `realloc` says whether the allocation succeeds.
unfoldable pub prepare : Bool → Times → Times
prepare realloc t = elim t.prev_process_time [
  | none ↦ fresh
  | some prev ↦ if ltb t.prev_process_count max_processes then fresh else t
]
  where
    fresh : Times
    fresh = record t {
      prev_process_time = if realloc then some (replicate max_processes 0) else none;
      prev_process_count = max_processes;
    }

-- The eight numbers of the first line of /proc/stat, if all are there.
unfoldable pub total_jiffies : Option (List ℕ) → ℕ
total_jiffies none = 0
total_jiffies (some numbers) = sum numbers
  where
    sum : List ℕ → ℕ
    sum [] = 0
    sum (n ∷ numbers) = add64 n (sum numbers)

abbrev pub process_time : StatLine → ℕ
process_time line = add64 line.utime line.stime

-- The line of an entry that is a process with a file.
unfoldable pub read_line : ProcEntry → Option StatLine
read_line entry = if ltb_ℤ (pos 0) entry.number then entry.line else none

abbrev kilobytes : ℤ → ℕ
kilobytes (pos n) = n * 4 % 2 ^ 64
kilobytes (negsuc n) = (2 ^ 64 - suc n % 2 ^ 64) * 4 % 2 ^ 64

-- The command line up to its first zero byte, or the name of the program where that is empty.
unfoldable pub command_of : List ℕ → Option (List ℕ) → List ℕ
command_of comm none = take 255 comm
command_of comm (some cmdline) =
    let text = c_string (take 511 cmdline) in take 255 (if ltb 0 (length text) then text else comm)

module _ {D : Type 0} (f : Formats D) where
  unfoldable pub user_of : Option (ℤ × Option (List ℕ)) → List ℕ
  user_of none = codes "unknown"
  user_of (some (uid, none)) = take 31 (f.dec uid)
  user_of (some (uid, some name)) = take 31 name

  -- The percentage, from the time at the same index of the array.
  unfoldable pub cpu_percent : Times → ℕ → ℕ → ℕ → ℕ → D
  cpu_percent t total i before now =
      let total_diff = sub64 total t.prev_total_jiffies in
      if ltb 0 t.prev_total_jiffies && ltb t.prev_total_jiffies total && ltb i t.prev_process_count
      then (if ltb 0 total_diff
          then f.mul (f.div (f.of_ℕ (sub64 now before)) (f.of_ℕ total_diff)) (f.of_ℕ 100)
          else f.of_ℕ 0)
      else f.of_ℕ 0

  unfoldable pub mem_percent : ℕ → ℕ → D
  mem_percent mem_total rss =
      if ltb 0 mem_total
      then f.div (f.of_ℕ rss) (f.div (f.of_ℕ mem_total) (f.of_ℕ 100))
      else f.of_ℕ 0

  unfoldable pub process_of : Times → ℕ → ℕ → ℕ → ProcEntry → StatLine → Process D
  process_of t total i before entry line = record {
    pid = line.pid;
    ppid = line.ppid;
    user = user_of entry.uid;
    cpu = cpu_percent t total i before (process_time line);
    mem = mem_percent t.mem_total (kilobytes line.rss);
    vsz = line.vsize / 1024;
    rss = kilobytes line.rss;
    stat = line.state ∷ [];
    command = command_of line.comm entry.cmdline;
  }

  -- One entry, with the next index and the array of times.
  unfoldable pub visit_line :
      Times
      → ℕ
      → ProcEntry
      → Process D
      → ℕ
      → List ℕ
      → Option StatLine
      → Process D × Bool × (ℕ × List ℕ)
  visit_line t total entry slot i prev none = (slot, false, (i, prev))
  visit_line t total entry slot i prev (some line) = (
    process_of t total i (get_or prev i 0) entry line,
    true,
    (suc i, if ltb i t.prev_process_count then set prev i (process_time line) else prev),
  )

  unfoldable pub visit_process :
      Times → ℕ → ProcEntry → Process D → ℕ × List ℕ → Process D × Bool × (ℕ × List ℕ)
  visit_process t total entry slot (i, prev) =
      visit_line t total entry slot i prev (read_line entry)

  abbrev pub no_process : Process D
  no_process = record {
    pid = pos 0;
    ppid = pos 0;
    user = [];
    cpu = f.of_ℕ 0;
    mem = f.of_ℕ 0;
    vsz = 0;
    rss = 0;
    stat = [];
    command = [];
  }

  -- The processes that are read and the array of times afterwards.
  unfoldable pub read_processes : Times → ℕ → List ℕ → List ProcEntry → List (Process D) × List ℕ
  read_processes t total prev entries =
      let (table, (i, prev')) =
        visit max_processes no_process (visit_process t total) entries
          (record { slots = replicate max_processes no_process; count = 0 }) (0, prev) in
      (used table, prev')

  -- `mem_total` is read once, from /proc/meminfo, here before the loop and in the code at its first
  -- process.
  unfoldable pub with_mem_total : Option ℕ → Times → Times
  with_mem_total none t = t
  with_mem_total (some total) t = if t.mem_total == 0 then record t { mem_total = total } else t

  -- The whole call: `none` where the array of times could not be allocated, and the first process
  -- that is read writes through a null pointer.
  unfoldable pub refresh :
      (D → D → Bool)
      → (List ℕ → List ℕ → ℤ)
      → ((Process D → Process D → ℤ) → List (Process D) → List (Process D))
      → Bool
      → Option (List ℕ)
      → Option ℕ
      → Option (List ProcEntry)
      → ProcessList D × Times
      → Option (ProcessList D × Times)
  refresh gt strcmp qsort realloc stat meminfo none (plist, times) =
      some (plist, prepare realloc times)
  refresh gt strcmp qsort realloc stat meminfo (some entries) (plist, times) =
      let t = with_mem_total meminfo (prepare realloc times) in
      let total = total_jiffies stat in
      elim t.prev_process_time [
        | none ↦ none
        | some prev ↦
            let (processes, prev') = read_processes t total prev entries in
            Option.map
              (λ plist'.
                (plist', record t { prev_total_jiffies = total; prev_process_time = some prev' }))
              (get_processes gt strcmp qsort (some processes) plist)
      ]
