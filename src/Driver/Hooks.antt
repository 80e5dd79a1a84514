-- ===== src/Driver/Hooks.antt =====
-- driver/hooks_vfs_ops.c: the hooks that log the call of a function of the file system with its argument
-- and nothing more, vfs_func1, vfs_func3, vfs_node_func3, vfs_node_func19 and vfs_node_func20.
use psvemmc.Base.{ℕ, suc, ◌<◌, ◌≡◌, ◌≢◌, ◌⊎◌, List, [], ◌∷◌, ◌++◌, if◌then◌else◌, ◌==◌, neg, word}
use psvemmc.Log.{
  Io, Log, open_sdstor_dev_fs_log, close_sdstor_dev_fs_log, write_sdstor_log, open_log, write_log,
}
use psvemmc.Log.Reached.{Reached}

pub data Hook : Type 0 where
  func1 func3 node_func3 node_func19 node_func20 : Hook

-- The formats of the lines.
abbrev format : Hook → List ℕ
format func1 =
    b'v' ∷ b'f' ∷ b's' ∷ b'_' ∷ b'f' ∷ b'u' ∷ b'n' ∷ b'c' ∷ b'1' ∷ b':' ∷ b' ' ∷ b'%' ∷ b'x' ∷ 10
    ∷ []
format func3 =
    b'v' ∷ b'f' ∷ b's' ∷ b'_' ∷ b'f' ∷ b'u' ∷ b'n' ∷ b'c' ∷ b'3' ∷ b':' ∷ b' ' ∷ b'%' ∷ b'x' ∷ 10
    ∷ []
format node_func3 =
    b'v' ∷ b'f' ∷ b's' ∷ b'_' ∷ b'n' ∷ b'o' ∷ b'd' ∷ b'e' ∷ b'_' ∷ b'f' ∷ b'u' ∷ b'n' ∷ b'c' ∷ b'3'
    ∷ b':' ∷ b' ' ∷ b'%' ∷ b'x' ∷ 10 ∷ []
format node_func19 =
    b'v' ∷ b'f' ∷ b's' ∷ b'_' ∷ b'n' ∷ b'o' ∷ b'd' ∷ b'e' ∷ b'_' ∷ b'f' ∷ b'u' ∷ b'n' ∷ b'c' ∷ b'1'
    ∷ b'9' ∷ b':' ∷ b' ' ∷ b'%' ∷ b'x' ∷ 10 ∷ []
format node_func20 =
    b'v' ∷ b'f' ∷ b's' ∷ b'_' ∷ b'n' ∷ b'o' ∷ b'd' ∷ b'e' ∷ b'_' ∷ b'f' ∷ b'u' ∷ b'n' ∷ b'c' ∷ b'2'
    ∷ b'0' ∷ b':' ∷ b' ' ∷ b'%' ∷ b'x' ∷ 10 ∷ []

-- The variable <name>_entered of a hook, and the log. `guards` is not in the code: what the variable was
-- each time that the hook wrote to the log.
pub record Hooked : Type 0 where
  pub entered : ℕ
  pub guards : List ℕ
  pub log : Log

-- What is not in the repository: the function that is hooked (TAI_CONTINUE), which may call hooks itself,
-- and the text that snprintf makes of a format for the argument.
pub record Original : Type 0 where
  pub tai_continue : ℕ → Hooked → ℕ × Hooked
  pub snprintf : List ℕ → ℕ → List ℕ

abbrev pub write_lines : List (List ℕ) → Log → Log
write_lines [] l = l
write_lines (line ∷ lines) l = write_lines lines (write_sdstor_log line l)

-- open_sdstor_dev_fs_log, FILE_SDSTOR_WRITE_LEN for each line, and close_sdstor_dev_fs_log
unfoldable pub log_lines : Io → List (List ℕ) → Log → Log
unfolding open_sdstor_dev_fs_log close_sdstor_dev_fs_log write_sdstor_log
log_lines io lines l = close_sdstor_dev_fs_log (write_lines lines (open_sdstor_dev_fs_log io l))

module _ (io : Io) (original : Original) where
  -- The lines, while the variable is as it is.
  abbrev write : List (List ℕ) → Hooked → Hooked
  write lines h = record h { guards = h.guards ++ (h.entered ∷ []); log = log_lines io lines h.log }

  abbrev log_call : List (List ℕ) → Hooked → Hooked
  log_call lines h =
      let h2 = write lines (record h { entered = 1 }) in
      write ((10 ∷ []) ∷ []) (record h2 { entered = 0 })

  -- The hook, with the lines by the argument.
  abbrev pub run_hook : (ℕ → List (List ℕ)) → ℕ → Hooked → ℕ × Hooked
  run_hook lines ctx h =
      let out = original.tai_continue ctx h in
      if h.entered == 1 then (neg 1, h) else (out.0, log_call (lines ctx) out.1)

  -- The lines of a hook.
  abbrev pub lines_of : Hook → ℕ → List (List ℕ)
  lines_of which ctx = original.snprintf (format which) ctx ∷ []

  unfoldable pub vfs_func1 : ℕ → Hooked → ℕ × Hooked
  unfolding log_lines
  vfs_func1 = run_hook (lines_of func1)

  unfoldable pub vfs_func3 : ℕ → Hooked → ℕ × Hooked
  unfolding log_lines
  vfs_func3 = run_hook (lines_of func3)

  unfoldable pub vfs_node_func3 : ℕ → Hooked → ℕ × Hooked
  unfolding log_lines
  vfs_node_func3 = run_hook (lines_of node_func3)

  unfoldable pub vfs_node_func19 : ℕ → Hooked → ℕ × Hooked
  unfolding log_lines
  vfs_node_func19 = run_hook (lines_of node_func19)

  unfoldable pub vfs_node_func20 : ℕ → Hooked → ℕ × Hooked
  unfolding log_lines
  vfs_node_func20 = run_hook (lines_of node_func20)

-- The hooks by name.
unfoldable pub hook : Io → Original → Hook → ℕ → Hooked → ℕ × Hooked
unfolding vfs_func1 vfs_func3 vfs_node_func3 vfs_node_func19 vfs_node_func20
hook io original func1 = vfs_func1 io original
hook io original func3 = vfs_func3 io original
hook io original node_func3 = vfs_node_func3 io original
hook io original node_func19 = vfs_node_func19 io original
hook io original node_func20 = vfs_node_func20 io original

write_lines-Reached :
    (io : Io) (lines : List (List ℕ)) (n : ℕ) (l : Log)
    → Reached io n l
    → Reached io n (write_lines lines l)
unfolding write_sdstor_log
write_lines-Reached io [] n l r = r
write_lines-Reached io (line ∷ lines) n l r =
    write_lines-Reached io lines n (write_log line l) (Reached.wrote line r)

pub log_lines-Reached :
    (io : Io) (lines : List (List ℕ)) (n : ℕ) (l : Log)
    → suc n < word
    → Reached io n l
    → Reached io n (log_lines io lines l)
unfolding log_lines
log_lines-Reached io lines n l w r =
    Reached.closed (write_lines-Reached io lines (suc n) (open_log io l) (Reached.opened w r))

-- A hook whose variable is 1 gives -1 and does nothing; else the result is that of the hooked function,
-- and the variable was 1 while the lines were written, and 0 from then on.
abbrev pub Logged : Io → Original → ℕ → ℕ → Hooked → ℕ × Hooked → Type 0
Logged io original n ctx h out =
    ((h.entered ≡ 1) × (out ≡ (neg 1, h)))
    ⊎ ((h.entered ≢ 1)
        × (out.0 ≡ (original.tai_continue ctx h).0)
        × (out.1.entered ≡ 0)
        × (out.1.guards ≡ (original.tai_continue ctx h).1.guards ++ (1 ∷ 0 ∷ []))
        × Reached io n out.1.log)
