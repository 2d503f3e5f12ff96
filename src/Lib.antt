-- ===== src/Lib.antt =====
-- Verification library of hifetch, a system information tool in C.
--
-- The program has two executables. `hifetch` (src/main.c) sets resource limits, gathers a record of
-- facts about the system (src/sysinfo.c) with the string and file helpers of src/utils.c,
-- src/security.c and src/simd_optimizations.c, and prints it (src/ascii.c). `hitop` (src/hitop.c,
-- src/process.c) is a process monitor on curses. Beside them stand a cache, a memory pool and a leak
-- tracker (src/memory_opt.c), a profiler, benchmarks, and readers of network and hardware facts.
--
-- What is modelled, and where:
-- - Common: tests, arrays as lists, C words and the operations of a `double`, shared by all. A C
--   string is the list of its bytes before the terminator, a byte a number below 256, `size_t` a
--   number with its wrap written out.
-- - Memory (src/memory_opt.c). Memory/Hash is `hash_key`. Memory/Cache is the cache: `cache_create`,
--   `cache_set` (with `cache_overwrite` and `cache_insert` for its two branches), `cache_get`
--   (`cache_fetch`), `cache_delete` (`cache_remove`) and `cache_cleanup_expired`; Cache/Chain has the
--   walks of one bucket, Cache/Valid the invariant, Cache/Refine and Cache/Answers and Cache/Expiry
--   the view as a map with expiry, Cache/Accounts and Cache/Counters the two counters, and
--   Cache/Failures the failing allocations. Memory/Cached is `cache_file_content_optimized` and
--   `cache_command_output`, which read through the cache, and Memory/Replies what later calls get.
--   Memory/Pool is the pool: `pool_create`, `pool_alloc` (`first_fit`, `remainder`) and `pool_free`
--   (`unlink`), with lists of blocks for the two linked lists. Memory/Tracker is the leak tracker:
--   `memory_tracker_init`, `tracked_malloc`, `tracked_free`, `tracked_calloc` and `tracked_realloc`.
-- - Hitop (src/process.c, src/hitop.c, include/hitop.h). Hitop/State has `Process`, `ProcessList` and
--   the monitor's globals, with the signals and priority changes it asks of the system as a list of
--   requests. Hitop/Input is `handle_input` with `show_kill_dialog` and `kill_process`: `decode` reads
--   the labels of the switch, `perform` is its cases, and a read of the array out of range is `none`.
--   Hitop/Reading is the read loop of `get_processes`, with the files of /proc as values (Hitop/Percents
--   has what its percentages are measured from), Hitop/Refresh `compare_processes` and
--   `get_processes` once its entries are read (Hitop/Filter
--   has its laws), Hitop/Display is `display_processes`, whose rows are values (Hitop/Rows,
--   Hitop/Shown), Hitop/Cursor has what keys do to the cursor and Hitop/Stale a cursor out of range.
--   `qsort`, `strcmp`, `double` and the entries of /proc are parameters. Hitop/Meters is
--   `get_cpu_info`, `update_history` and the blocks of `draw_cpu_graph`, Hitop/Meminfo is
--   `get_mem_info`, with Hitop/Cores for the rows of the processors and Hitop/History for the graph of the past values.
-- - Strings (src/utils.c, src/security.c): `trim_string`, `get_string_between` and `is_safe_path`;
--   Strings/Trim has the laws of the first, Strings/Search those of the other two. Strings/Commands
--   is `optimize_memory_pools` and `execute_cmd_fast`, with `popen` and `fread` as parameters;
--   Strings/Reading is about the loop that reads, Strings/Ring about the 256 buffers. Strings/Secure
--   is `validate_command`, `secure_strlen`, `secure_strdup`, `secure_memzero`, `read_file_fast` and
--   `read_sysfs_string`.
-- - Vector (src/simd_optimizations.c): `fast_string_copy_simd`, `fast_string_compare_simd`
--   and `parallel_string_processing`, with the features of the processor as a parameter;
--   Vector/Blocks compares the first two with byte loops, Vector/Newlines is about the third.
-- - Profiler (src/profiler.c, include/profiler.h). Profiler/State has the records, Profiler/Calls the
--   calls of a profiled program, `profile_function_enter` to `sample_system_state`, over the tables of
--   Profiler/Slots. Profiler/Stats and Profiler/Tables read the two nested tables as one map,
--   Profiler/Measures has what a pair of calls measures, Profiler/Nested a recursive one,
--   Profiler/Bounds the arrays. Profiler/Report is the sort of `generate_profile_report`
--   (Profiler/Sorting, Profiler/Top). Profiler/Sampler has `profiler_start`, `profiler_stop`,
--   `profiler_cleanup` and `profiling_thread_func` as steps of two threads; a call is one step, which
--   is what `profiler_mutex` gives for all of them but `sample_system_state`. A `double` is any type
--   with the operations that the code uses, and the clock a parameter of each call.
-- - Performance (src/performance.c, include/performance.h). Performance/Benchmarks is
--   `start_benchmark`, `end_benchmark` and `compare_with_fastfetch`, Performance/Repeats what a name
--   used again measures. Performance/Network and Performance/Disks are `get_network_performance` and
--   `get_io_performance` over the loop of Performance/Intervals; `sscanf` is a parameter.
-- - Sysinfo (src/sysinfo.c, include/sysfetch.h). Sysinfo/State has the record `SystemInfo`, what the
--   system answers as the record `Sources`, and the conversions of the C library as `Formats`.
--   Sysinfo/Facts, Sysinfo/Tables and Sysinfo/Desktop are the getters, each under its own name, with
--   the texts of Sysinfo/Texts; Sysinfo/Gather is `init_fast_cache` and `get_system_info`.
--   Sysinfo/Uptime, Sysinfo/Gpus and Sysinfo/Twice have the laws of the uptime, of the list of cards
--   and of two calls. The lines of a file are what `strtok` gives. A text that the code copies with
--   `strcpy` is taken to fit its array.
-- - Display (src/advanced_display.c, include/advanced_display.h). Display/Widgets is `load_theme` and
--   `create_widget`, Display/Drawing the cells of `draw_progress_bar` and what `render_display` changes
--   and renders, Display/Frames what holds through any use of them.
-- - Report (src/ascii.c). Report/Logos and Report/DebianLogos have the logos, Report/Layout
--   `get_distro_ascii`, `print_ascii_art`, `get_display_width` and `fast_memset_dashes`, Report/Lines
--   the lines of `display_system_info` and how they are laid out; Report/Columns has the laws of the
--   columns, and Report/Fits those of the report of a gathered record.
-- - Hardware (src/hardware.c, include/hardware.h). Hardware/Sysfs is the reading of values through the
--   static buffer of `read_sysfs_string`, whose text goes from one read to the next; Hardware/Devices
--   has the processor and the lists of devices, Hardware/Sensors the sensors, Hardware/Detect
--   `detect_hardware`. Hardware/Aliases is about the two pointers to the static buffer,
--   Hardware/Bounds and Hardware/Detected about the arrays, Hardware/Inputs about which files are
--   sensors, Hardware/Readings and Hardware/Slots about what the slots hold.
-- - Network (src/network.c, include/network.h). Network/State has the records, and the C library and
--   the commands of the shell as the record `Network`; Network/Interfaces is
--   `scan_network_interfaces` with `get_network_statistics` and `get_wireless_info`, Network/Tables
--   the routes and the connections, Network/Probes what is measured with commands, Network/Hops
--   `run_traceroute`. Network/Listed, Network/Wireless, Network/Gateways, Network/States and
--   Network/Times have their laws. The loops that fill an array are `visit` of
--   Common/Tables, with its laws in Common/Visits.
--
-- Loops are structural recursion on the list or on the number of rounds left. Only the loop of
-- Strings/Commands that reads runs on fuel, 4096 rounds: each round but the last reads at least one of
-- the 4095 bytes that fit.
-- Not modelled: the rest of src/performance.c and src/advanced_display.c. Output to the terminal,
-- system calls, the port scan of src/network.c and start-up (src/main.c) are left aside.
pub mod Common
pub mod Display
pub mod Performance
pub mod Profiler
pub mod Report
pub mod Network
pub mod Hardware
pub mod Sysinfo
pub mod Memory
pub mod Hitop
pub mod Strings
pub mod Vector
