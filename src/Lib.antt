-- ===== src/Lib.antt =====
-- The in-memory file systems of BBFS: ProjectWOFuse/src/my_stubs.cc, a file system with a console, and
-- ProjectWFuse/src/my_calls.cc, an earlier one, with the FUSE callbacks of ProjectWFuse/src/bbfs.c before it.
--
-- my_stubs.cc keeps all files in the global `ilist.entry`, a map from inode numbers to `File`. A path
-- is split at "/", looked up segment by segment from number 2, and a symbolic link at its end is
-- followed once. The other operations find numbers that way and then change entries of the map.
--   Base         lists, bytes, machine words as bit patterns, and `std::map` as a sorted list
--   State        `File`, `dirent_frame`, `Ilist`, the globals, and runs that may fault; State/View
--                says what of a state the operations can see
--   Path         `split` and `join`
--   Resolve      `fopendir`, `my_readdir`, `lookup`, `find_real_ino`, `my_pread`, `my_readlink`,
--                `find_ino`; its children compare them with a resolution over segments
--   Create       `my_mknod`, `my_mkdir`, `my_creat`, `initialize`
--   Contents     `my_open`, `my_close`, `my_pwrite`, `my_ftruncate`, `my_truncate`
--   Attributes   `my_fstat`, `my_lstat`, `my_access`, `my_chmod`, `my_chown`, `my_utime`, `my_statvfs`
--   Links        `my_link`, `my_unlink`, `my_rmdir`, `my_symlink`, `my_rename`; Links/Effects has them as
--                changes of what the state shows, the other children what they do to paths
--   Xattr        `my_lsetxattr`, `my_lgetxattr`, `my_llistxattr`, `my_lremovexattr`
--   Invariant    what every operation keeps, with a lemma for each operation
--   System       the operations as steps, and the states that they reach
--   Console      the commands of `main` that call operations; Console/Input is what `>>` and `getline`
--                read, Console/Dialog what each command asks for and records, Console/Listing `ls`,
--                `describe_file` and `visit`, Console/Loop the loop and what is behind `break`;
--                Console/Replay says what is read back of a record, Console/Looks what only looks,
--                Console/Sound what stays true of the files,
--                Console/Ends what ends
-- my_calls.cc keeps a table of inodes and a table of open files, which point to inodes:
--   Fuse         the tables, `split`, `get_inode_number`, `inode_init`, `file_init`; its children
--                Calls, Transfer and Names have the calls; Session has sequences of them, and Invariant and
--                Rootless say what holds after any calls
-- bbfs.c passes the requests of libfuse to the host, with the mounted root put before each path, and
-- makes files by my_calls.cc:
--   Bbfs         `bb_error`, `bb_fullpath`; Bbfs/Paths and Bbfs/Handles have the callbacks, and
--                Bbfs/Session is `bb_oper`, the requests that libfuse can make; Bbfs/Main is `main`, with
--                `log_open` of log.c
-- The files below a part's own hold the theorems on it. Tests has small file systems and a host, and
-- the theorems at concrete inputs.
--
-- A state is passed on explicitly. A run that is undefined behaviour in the source, or that an
-- exception ends, is a fault (of my_calls.cc: no result). A name in an `Errno` stands for the value of
-- `errno`; console output is left out. Integers of the source are numbers below 2 ^ 32 or 2 ^ 64, a
-- negative one as its bit pattern. Loops over a directory or over a path run on fuel or on the list:
-- `lookup` gets one round more than the directory has entries, `split` one more than the text has
-- bytes, and both are shown to be enough. `bb_readdir` gets a round for each entry that the host has.
--
-- Assumed: the layout of `dirent` on x86-64 glibc, which leaves 516 bytes for a name in a
-- `dirent_frame`; a umask of permission bits only; memory for every allocation. A pointer that
-- `my_readdir` returns is read as the entry it pointed to. The clock, the user and the mask are the
-- record `Env`, of which a run of `main` gets one for each round, its `Clock`. Numbers of inodes are
-- below 2 ^ 31, since `count` is an `int`, so that the `int` that `find_ino` and `my_readlink` keep one in
-- holds it as it is; the names of a file's attributes take less than 2 ^ 31 bytes, which
-- `my_llistxattr` counts in an `int`.
--
-- The host's system calls are the record `Host`, a parameter, and so is libfuse's `filler`. Logging is
-- left out, and taken to leave `errno` alone.
--
-- `main` reads its input by libstdc++ 4.3 or later with the C locale, which Console/Input spells out:
-- `>>` skips spaces, a number that cannot be read is stored as 0 and sets `failbit`, and nothing is
-- stored where the stream is not good before. The file and what is typed are fixed texts without NUL.
-- A round that uses a variable which was never set is a fault. `ls`, `describe_file` and
-- `my_closedir` have no `return` at their end; they are taken to return something, which every caller
-- drops. The names of users and groups are the record `Accounts`. `main` gets a number of rounds, and
-- `visit` a depth of nested calls, since neither ends on every input.
--
-- Not modelled: log.c of ProjectWFuse but for `log_open`, its fuse.h and config.h, of bbfs.c `bb_init`
-- and `bb_destroy`, which only log, and in my_stubs.cc the layout of what is printed.
pub mod Base
pub mod State
pub mod Path
pub mod Resolve
pub mod Create
pub mod Contents
pub mod Attributes
pub mod Links
pub mod Xattr
pub mod Invariant
pub mod System
pub mod Fuse
pub mod Bbfs
pub mod Console
pub mod Tests
