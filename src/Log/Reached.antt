-- ===== src/Log/Reached.antt =====
-- driver/glog.c and driver/sdstor_log.c: what holds after any sequence of calls by any threads.
use psvemmc.Base.{
  ℕ, suc, ◌<◌, ◌≤◌, ◌≡◌, ◌≢◌, refl, ◌∙◌, true, List, [], ◌∷◌, arith, if◌then◌else◌, is_neg, neg,
  word, ne→==, ◌⊎◌, inl,
}
use psvemmc.Log.{Io, Log, empty_log, init_log, write_log, open_log, close_log}

-- The states after calls of which `n` more opened the log than closed it. Each thread closes only
-- what it opened, and fewer than 2^32 - 1 have it open at a time.
pub data Reached (io : Io) : ℕ → Log → Type 0 where
  start : Reached io 0 (init_log io empty_log)
  opened : {n : ℕ} {l : Log} → suc n < word → Reached io n l → Reached io (suc n) (open_log io l)
  closed : {n : ℕ} {l : Log} → Reached io (suc n) l → Reached io n (close_log l)
  wrote : {n : ℕ} {l : Log} (msg : List ℕ) → Reached io n l → Reached io n (write_log msg l)

-- The count is that of the users; a descriptor is open exactly if it is not negative, and only while
-- there are users.
pub record IsLog (n : ℕ) (l : Log) : Type 0 where
  pub users : l.ref_ctx ≡ n
  pub bounded : n < word
  pub one_file : l.open_files ≡ (if is_neg l.log_fd then 0 else 1)
  pub in_use : (is_neg l.log_fd ≡ true) ⊎ (0 < n)

-- The threads share the file. The first to open the log asks ksceIoOpen for it, if no open failed with
-- another code than -1; a later one does not, and leaves the descriptor as it is; and as long as there
-- are other users a close leaves it, too.
abbrev pub IsShared : Io → ℕ → Log → Type 0
IsShared io n l =
    ((0 < n) ⊎ (l.log_fd ≢ neg 1) ⊎ ((open_log io l).log_fd ≡ io.open_file l.clock))
    × ((n ≡ 0)
        ⊎ (((open_log io l).log_fd ≡ l.log_fd) × ((open_log io l).open_files ≡ l.open_files)))
    × ((n ≤ 1) ⊎ (((close_log l).log_fd ≡ l.log_fd) × ((close_log l).open_files ≡ l.open_files)))

open_log-IsLog :
    (io : Io) (n : ℕ) (l : Log) → suc n < word → IsLog n l → IsLog (suc n) (open_log io l)
unfolding open_log
open_log-IsLog io n l w v = ground (arith, v.users, v.one_file, v.in_use)

close_log-IsLog : (n : ℕ) (l : Log) → IsLog (suc n) l → IsLog n (close_log l)
unfolding close_log
close_log-IsLog n l v = ground (arith, v.users, v.bounded, v.one_file, v.in_use)

write_log-IsLog : (n : ℕ) (msg : List ℕ) (l : Log) → IsLog n l → IsLog n (write_log msg l)
unfolding write_log
write_log-IsLog n msg l v = ground (arith, v.users, v.bounded, v.one_file, v.in_use)

IsLog-IsShared : (io : Io) (n : ℕ) (l : Log) → IsLog n l → IsShared io n l
unfolding open_log close_log
IsLog-IsShared io n l v =
    (ground (arith, v.users), ground (arith, v.users), ground (arith, v.users, v.bounded))

IsLog_lem : (io : Io) (n : ℕ) (l : Log) → Reached io n l → IsLog n l
unfolding init_log
IsLog_lem io n l start = record {
  users = refl;
  bounded = omega arith;
  one_file = refl;
  in_use = inl refl;
}
IsLog_lem io (suc n) l (opened w r) = open_log-IsLog io n _ w (IsLog_lem io n _ r)
IsLog_lem io n l (closed r) = close_log-IsLog n _ (IsLog_lem io (suc n) _ r)
IsLog_lem io n l (wrote msg r) = write_log-IsLog n msg _ (IsLog_lem io n _ r)

-- After any calls of the functions of a log by any threads, in any order, whatever ksceIoOpen answers:
-- the count is the number of threads that have the log open, at most one descriptor is open, and it is
-- the one that log_fd holds; none is open without a user. Where no thread has the log open and log_fd is
-- -1, the next to open it gets what ksceIoOpen answers; while one has it open, another open leaves the
-- descriptor, and while two or more have, a close does. Each thread is assumed to close only what it
-- opened, and fewer than 2^32 - 1 to have the log open at a time.
pub Reached-IsLog : (io : Io) (n : ℕ) (l : Log) → Reached io n l → IsLog n l × IsShared io n l
Reached-IsLog io n l r = let v = IsLog_lem io n l r in (v, IsLog-IsShared io n l v)

-- Once every thread has closed the log, no descriptor of it is open.
Reached-released :
    (io : Io) (l : Log)
    → Reached io 0 l
    → (l.open_files ≡ 0) × (l.ref_ctx ≡ 0) × (is_neg l.log_fd ≡ true)
Reached-released io l r =
    let v = IsLog_lem io 0 l r in ground (arith, v.users, v.one_file, v.in_use)

-- The calls of threads on a log.
pub data Use : Type 0 where
  opens closes : Use
  writes : List ℕ → Use

abbrev pub use_log : Io → Log → List Use → Log
use_log io l [] = l
use_log io l (opens ∷ us) = use_log io (open_log io l) us
use_log io l (closes ∷ us) = use_log io (close_log l) us
use_log io l (writes msg ∷ us) = use_log io (write_log msg l) us

-- A log whose descriptor is an error code other than -1: each call leaves it as it is.
open_log-dead :
    (io : Io) (l : Log)
    → l.log_fd ≢ neg 1
    → ((open_log io l).log_fd ≡ l.log_fd) × ((open_log io l).written ≡ l.written)
unfolding open_log
open_log-dead io l n = rw (ne→== l.log_fd (neg 1) n) (refl, refl)

close_log-dead :
    (l : Log)
    → is_neg l.log_fd ≡ true
    → ((close_log l).log_fd ≡ l.log_fd) × ((close_log l).written ≡ l.written)
unfolding close_log
close_log-dead l e = rw e (refl, refl)

write_log-dead :
    (msg : List ℕ) (l : Log)
    → is_neg l.log_fd ≡ true
    → ((write_log msg l).log_fd ≡ l.log_fd) × ((write_log msg l).written ≡ l.written)
unfolding write_log
write_log-dead msg l e = rw e (refl, refl)

-- If ksceIoOpen failed once with an error code other than -1, the log is dead: no later call, whatever
-- the calls are, opens the file again or writes a byte.
failed_open_stays :
    (io : Io) (us : List Use) (l : Log)
    → is_neg l.log_fd ≡ true
    → l.log_fd ≢ neg 1
    → ((use_log io l us).log_fd ≡ l.log_fd) × ((use_log io l us).written ≡ l.written)
failed_open_stays io [] l e n = (refl, refl)
failed_open_stays io (opens ∷ us) l e n =
    let k = open_log-dead io l n in
    let h = failed_open_stays io us (open_log io l) (rw k.0 e) (rw k.0 n) in (h.0 ∙ k.0, h.1 ∙ k.1)
failed_open_stays io (closes ∷ us) l e n =
    let k = close_log-dead l e in
    let h = failed_open_stays io us (close_log l) (rw k.0 e) (rw k.0 n) in (h.0 ∙ k.0, h.1 ∙ k.1)
failed_open_stays io (writes msg ∷ us) l e n =
    let k = write_log-dead msg l e in
    let h = failed_open_stays io us (write_log msg l) (rw k.0 e) (rw k.0 n) in
    (h.0 ∙ k.0, h.1 ∙ k.1)
