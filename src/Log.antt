-- ===== src/Log.antt =====
-- driver/glog.c and driver/sdstor_log.c: two log files with the same code, each with a descriptor, a
-- count of its users and a mutex. Each function holds the mutex throughout, so that what threads do
-- with a log is a sequence of these functions. Reached has the states that such a sequence leads to,
-- Lines the block of code that writes one line.
pub mod Reached
pub mod Lines
use psvemmc.Base.{
  ℕ, suc, Bool, true, false, List, [], ◌++◌, if◌then◌else◌, not, ◌&&◌, ◌==◌, ◌-◌, ◌+◌, is_neg, neg,
  add32, sub32,
}

-- ksceIoOpen and ksceKernelCreateMutex, by the number of the call.
pub record Io : Type 0 where
  pub open_file : ℕ → ℕ
  pub create_mutex : ℕ → ℕ

-- `written` and `open_files` are not in the code: the bytes that went to the file, and how many
-- descriptors are open.
pub record Log : Type 0 where
  pub log_fd : ℕ
  pub ref_ctx : ℕ
  pub mutex : ℕ
  pub written : List ℕ
  pub open_files : ℕ
  pub clock : ℕ

abbrev pub empty_log : Log
empty_log = record {
  log_fd = neg 1;
  ref_ctx = 0;
  mutex = neg 1;
  written = [];
  open_files = 0;
  clock = 0;
}

-- A descriptor that ksceIoOpen gave.
abbrev pub set_fd : ℕ → Log → Log
set_fd fd l = record l {
  log_fd = fd;
  open_files = if is_neg fd then l.open_files else suc l.open_files;
  clock = suc l.clock;
}

unfoldable pub init_log : Io → Log → Log
init_log io l = record l { mutex = io.create_mutex l.clock; clock = suc l.clock }

unfoldable pub deinit_log : Log → Log
deinit_log l = record l { mutex = neg 1 }

-- ksceIoWrite, whose result the code drops, is taken to store all of the bytes.
unfoldable pub write_log : List ℕ → Log → Log
write_log msg l = if is_neg l.log_fd then l else record l { written = l.written ++ msg }

unfoldable pub open_log : Io → Log → Log
open_log io l =
    let l' =
      (if (l.log_fd == neg 1) && (l.ref_ctx == 0) then set_fd (io.open_file l.clock) l else l) in
    record l' { ref_ctx = add32 l'.ref_ctx 1 }

unfoldable pub close_log : Log → Log
close_log l =
    let l' = record l { ref_ctx = sub32 l.ref_ctx 1 } in
    if not (is_neg l'.log_fd) && (l'.ref_ctx == 0)
    then record l' { log_fd = neg 1; open_files = l'.open_files - 1 }
    else l'

-- The functions of the two files.
unfoldable pub init_global_log : Io → Log → Log
unfolding init_log
init_global_log = init_log

unfoldable pub deinit_global_log : Log → Log
unfolding deinit_log
deinit_global_log = deinit_log

unfoldable pub write_global_log : List ℕ → Log → Log
unfolding write_log
write_global_log = write_log

unfoldable pub open_global_log : Io → Log → Log
unfolding open_log
open_global_log = open_log

unfoldable pub close_global_log : Log → Log
unfolding close_log
close_global_log = close_log

unfoldable pub init_sdstor_log : Io → Log → Log
unfolding init_log
init_sdstor_log = init_log

unfoldable pub deinit_sdstor_log : Log → Log
unfolding deinit_log
deinit_sdstor_log = deinit_log

unfoldable pub write_sdstor_log : List ℕ → Log → Log
unfolding write_log
write_sdstor_log = write_log

unfoldable pub open_sdstor_dev_fs_log : Io → Log → Log
unfolding open_log
open_sdstor_dev_fs_log = open_log

unfoldable pub close_sdstor_dev_fs_log : Log → Log
unfolding close_log
close_sdstor_dev_fs_log = close_log
