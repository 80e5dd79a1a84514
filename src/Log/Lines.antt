-- ===== src/Log/Lines.antt =====
-- driver/glog.c and driver/sdstor_log.c: a block of code that opens a log, writes a line and closes it,
-- as the driver has it at every message.
use psvemmc.Base.{ℕ, suc, ◌<◌, List, word}
use psvemmc.Log.{
  Io, Log, open_global_log, write_global_log, close_global_log, open_sdstor_dev_fs_log,
  write_sdstor_log, close_sdstor_dev_fs_log,
}
use psvemmc.Log.Reached.{Reached}

-- An argument of snprintf: a number or a pointer, or a string.
pub data Arg : Type 0 where
  int : ℕ → Arg
  str : List ℕ → Arg

-- snprintf: the text of a format and its arguments.
abbrev pub Printf : Type 0
Printf = List ℕ → List Arg → List ℕ

unfoldable pub global_line : Io → List ℕ → Log → Log
unfolding open_global_log write_global_log close_global_log
global_line io line l = close_global_log (write_global_log line (open_global_log io l))

unfoldable pub sdstor_line : Io → List ℕ → Log → Log
unfolding open_sdstor_dev_fs_log write_sdstor_log close_sdstor_dev_fs_log
sdstor_line io line l =
    close_sdstor_dev_fs_log (write_sdstor_log line (open_sdstor_dev_fs_log io l))

pub global_line-Reached :
    (io : Io) (line : List ℕ) (n : ℕ) (l : Log)
    → suc n < word
    → Reached io n l
    → Reached io n (global_line io line l)
unfolding global_line
global_line-Reached io line n l w r = Reached.closed (Reached.wrote line (Reached.opened w r))

pub sdstor_line-Reached :
    (io : Io) (line : List ℕ) (n : ℕ) (l : Log)
    → suc n < word
    → Reached io n l
    → Reached io n (sdstor_line io line l)
unfolding sdstor_line
sdstor_line-Reached io line n l w r = Reached.closed (Reached.wrote line (Reached.opened w r))
