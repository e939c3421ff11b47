-- ===== src/Lib.antt =====
-- libmisc: a C library of event timers, a log with levels and destinations, a crash handler with a
-- backtrace for MIPS, and small helpers for pipes, pid files, shared memory and sockets.
--
-- How the parts interact. The timers stand alone: a program gives them functions, and calls
-- `timer_execute_expire_events` or `mTimer_executeExpireEvents` from its main loop; an event function
-- may call the timer again. `log_log` asks `oil_getCfgValue` for the level, the destination and the
-- header mask of its application before each message, and writes to stderr, to a terminal or to
-- syslog. The
-- crash handler opens its outputs, dumps files and the frames of `mips_backtrace` on the context of
-- the signal to them, and closes them.
--
-- Which file models what.
--   Base, Base/*     Boolean tests, lists, C integers and C strings that the parts share.
--   Store, Store/*   The memory of the timers: nodes at addresses, `timer_handle_t`, and a command
--                    monad in which a bad access is a fault and used-up fuel is visible.
--   EventList        The list loops that misc_timer.c and misc_timer2.c share: find, unlink, clean up.
--   Time             `timer_add_msec` and the comparisons of times in misc_timer.c and misc_timer2.c.
--   Timer            misc_timer.c: `timer_init`, `timer_event_add` (event_add), `timer_event_delete`
--                    (delete), `timer_is_event_present`, `timer_execute_expire_events` (execute_loop)
--                    and `timer_cleanup` (cleanup); in Timer/Program the calls of a whole program,
--                    with what they mean on a list of events (Timer/Program/Spec).
--   Timer2           misc_timer2.c: `mTimer_add` (add), `mTimer_delete` (delete), `mTimer_cleanup`
--                    and `mTimer_executeExpireEvents` (execute_expire_events); in Timer2/Lifetime
--                    any number of rounds, in Timer2/Subsecond events of less than a second, and in
--                    Timer2/Program a whole program.
--   Log              misc_log.c with `oil_getCfgValue` and `oil_tmsGet` of misc_oil.c: the attributes
--                    and their configuration (Log), the line of a message (Log/Line), its
--                    destination (Log/Dispatch), `initLogEntity` (Log/Slots), calls in a row
--                    (Log/Session), a whole program up to `log_cleanup` (Log/Program), two
--                    applications (Log/Separate), and the macros of libmisc.h (Log/Macros).
--   Mipsbt           misc_mipsbt.c: `bt_getProcessMaps` (get_process_maps), `bt_regularAddr`
--                    (regular_addr) and `mips_backtrace`, whose loop is walk_loop with a turn each;
--                    in Mipsbt/Process with the map that stays from call to call. Mipsbt/Stack says
--                    what a call stack is.
--   Crash            misc_crash.c as built for MIPS: `miscCrash_init` (misc_crash_init),
--                    `miscCrash_register` (misc_crash_register), `createGlobalBacktrace`; in
--                    Crash/Output `blockingWrite` (blocking_write) and what `outputPrintf` returns; in
--                    Crash/ProcName `miscCrash_getProcName` (get_proc_name); in Crash/Symbols
--                    the backtrace of the build with glibc; in Crash/Debug what `miscCrash_init`
--                    prints through DPRINTF.
--   Crash/Dump       The dump of a crash, as a list of effects: what `outputPrintf` writes
--                    (print_line), `outputInit`, `outputFini`, `outputFile`, `outputCmd`; in
--                    Crash/Dump/Report `outputGlobalBacktrace` (frame_lines), `outputBacktrace` and
--                    `crash_handler`, which has no result where its backtrace leaves the
--                    buffer; in Crash/Signals and Crash/Dump/Signals the actions for signals.
--   CrashTest        crash_test.c and crash_test_lib.c: the signals of `main`, and its child.
--   Oil              The shared memory of misc_oil.c: `oil_shmInit` (shm_init), `oil_shmDetach` and
--                    `oil_shmCleanup` (shm_cleanup); in Oil/Race its three calls as steps of several
--                    processes, in any order, of which some fail, and in Oil/Syslog its calls of syslog.
--   Util             misc_util.c: `misc_pipeCmd` (pipe_cmd) and `misc_pipeCmd_ex` (pipe_cmd_ex); in
--                    Util/Console `misc_system`, `misc_printConsole`, `misc_printFile` and
--                    `misc_selSleep`; in Util/Pid `misc_procEp` (proc_ep).
--   Net              misc_net.c: `misc_getIpAddress` and `misc_getMacAddress` with its static buffer.
-- The module of a part holds its definitions, the modules below it what they prove, and its module
-- Tests runs on small inputs.
--
-- State is passed explicitly: the state of a timer is its memory, its handle and the data of the
-- program; an event function is a command on that state. Addresses are numbers, and 0 is NULL. What
-- the C library and the system return is an argument: blocks of malloc with their old contents, the
-- time of day, the values of nvram_get, what sscanf reads from a line, the results of write,
-- open and ioctl, what a file or a command holds, `%p`, and the memory of a process.
--
-- Bounds and fuel. The loops over a list take fuel, and the theorems ask for more than the number of
-- events. The walk of `mips_backtrace` takes size times 2 ^ 30 turns at most: each turn goes down by a
-- word, or writes an entry. Its addresses and words have 32 bits and wrap around. The times and counts
-- of the timers are integers without a bound, so overflow of `int` is not modelled; Time/Bounds says for
-- which times and intervals none happens when an interval is added, and Timer2/Subsecond up to how many
-- rounds.
--
-- Not modelled: what misc_mipsbt.c and the timers print for debugging; what misc_oil.c logs; files and
-- descriptors that stay open or are never freed; `log_init` with SHM_SUPPORT and the loop of
-- misc_mipsbt2.c, since the builds that reach them read variables that are not declared and do not
-- compile; the makefiles.
pub mod Base
pub mod Crash
pub mod CrashTest
pub mod EventList
pub mod Log
pub mod Mipsbt
pub mod Net
pub mod Oil
pub mod Store
pub mod Time
pub mod Timer
pub mod Timer2
pub mod Util
