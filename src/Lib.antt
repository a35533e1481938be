-- ===== src/Lib.antt =====
-- mmlib, a C library of portable system services: a model of its own logic, with proofs.
--
-- The library gives programs one interface over POSIX and Windows. Much of it hands calls on to the
-- system; modelled here is what it computes itself.
--
-- - Base: the shared names, lists and Boolean tests over the native numbers, signed integers (Base.Int)
--   and C strings as lists of bytes (Base.CString).
-- - Path: mm_basename and mm_dirname of src/utils.c, with the tests of src/file-internal.h. The
--   platform is an argument where the source has `#ifdef _WIN32`. A pointer into a path is its offset.
-- - File: mm_remove of src/file-posix.c, on a tree of files in which stands what the system refuses. The
--   recursion is on the tree; its level is a number, as in the code. Mkdir is mm_mkdir of src/file.c over
--   the system's mkdir, which is a parameter; File.Mkdir.Paths has paths by their components.
-- - Argparse: the command-line parser of src/argparse.c and src/mmargparse.h. Opt has an option's key,
--   name and type; Desc the copy of a description with its value name; Wrap and Help the help text;
--   Find the search of an option; Value the conversion of values; Complete and Paths the completion;
--   Parse the rounds of mm_arg_parse. Run is the monad they share: a run prints, stores values, ends
--   the process, or reads behind the end of a string, and the caller's callbacks act in it. Numbers are
--   read by the C library (strtoll, strtoull), which is a parameter, as are isalnum and the directory
--   that mm_arg_complete_path reads.
-- - Env: the environment and the base directories of src/utils.c, over getenv, setenv and unsetenv, which
--   are a record of operations; what is relied on of them is the record IsEnviron of Env.Setenv. The
--   bytes that mm_setenv allocates are a number of their own, beside the value that it joins.
--   Env.Windows is src/env-win32.c, a cache in UTF-8 before the environment of the C runtime, which is a record
--   of operations (Crt) with its laws in IsCrt of Env.Windows.Agree; a pointer to an entry is its index.
-- - Profile: src/profile.c, the measures of time between mm_tic and mm_toc, their statistics (Points,
--   Statistics), what is reported of them (Table, Results) and the lines that are printed (Print, Lines).
--   The times that are read are arguments.
-- - Mutex: the process shared mutexes of src/thread-win32.c. Lockval has the parts of the lock value of
--   src/mutex-lockval.h; Thread what a thread does with it, one atomic access at a time; System the threads
--   that share a mutex, whose accesses are steps in any order; Cleanup what src/pshared-lock.c does to the
--   lock value of dead threads.
-- - Cond: the process shared conditions of src/thread-win32.c, over the lock that the lock server keeps for
--   their key (Referee.Waiters).
-- - Process: processes on Windows. Quote is the quoting of a command line by src/process-win32.c, and
--   Cmdline its parsing at the start of a process by src/startup-win32.c; Search finds the executable in
--   PATH; Startup sets up the descriptors that are inherited, by duplicates of their handles; Children keeps the handles of the processes
--   started; Spawn puts them together into mm_spawn. CreateProcessW, the tests of files, the handles and the
--   exit codes are the system's, and so are the conversions between UTF-8 and UTF-16, which are left out.
-- - Threads: the life of a thread's data in src/thread-win32.c, shared by the thread and the caller that
--   joins or detaches it; their accesses are steps in any order.
-- - Errors: the error state of a thread of src/error.c, and Log: the lines that src/log.c writes; a raised
--   error goes to the log with errors ignored meanwhile. The bits of the flags are a function.
-- - Time: the arithmetic of time stamps of src/mmtime.h, and the sleeps of src/time.c.
-- - Referee: src/lock-referee-server.c, the server by which threads of several Windows processes wait
--   for locks. Types has its data; Search and Array the sorted array of locks, whose cells are the
--   memory that is really held; Waiters a lock's queue, wakeups and cleanup jobs; Timeouts the lists of
--   timed waits, as nodes linked in memory; Server the requests of the clients and their end. A waiter
--   asks its lock's queue for a wakeup, a wakeup that finds too few waiters is kept in the lock's counter,
--   and a lock without waiters and jobs is dropped from the array. In Waiters the answers of the server are
--   the lists of threads that a call wakes; in Server they are messages.
--
-- Loops over strings and lists are recursion on them. Six loops have fuel: the wrapping of the help
-- text, the usage lines, the binary search and the search in PATH have one more than the length of what
-- they read, of which each round takes something away; the walk of find_place along the links of a
-- timeout list takes one for each node and one more, and mm_mkdir two more than the length of the path, which
-- each parent makes shorter.
--
-- The lock value of a shared mutex is a word of 64 bits that wraps around. Other arithmetic is exact;
-- where C limits a value (the integer options) the bounds are written out, and elsewhere the results are
-- those of the code as far as they fit its types. An allocation that may fail is an argument that says so.
--
-- Not modelled: most operations on files, sockets, POSIX processes, shared memory, clocks and dynamic
-- libraries, which are calls of the system; and of the lock server the pipes, the robust data and its main
-- loop.
pub mod Base
pub mod Path
pub mod File
pub mod Argparse
pub mod Time
pub mod Env
pub mod Mutex
pub mod Cond
pub mod Process
pub mod Threads
pub mod Log
pub mod Errors
pub mod Profile
pub mod Referee
