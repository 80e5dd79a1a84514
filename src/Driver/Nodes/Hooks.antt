-- ===== src/Driver/Nodes/Hooks.antt =====
-- driver/hooks_vfs_ops.c: the hooks that log members of their argument, vfs_func12 and 13, those that log
-- nodes of the file system, vfs_node_func1, 4, 7 and 9, and those that only count, vfs_node_func5 and 6. The members that a line shows are read before the log is
-- opened, where the code reads them between two lines.
use psvemmc.Base.{
  ℕ, List, [], ◌∷◌, ◌++◌, if◌then◌else◌, ◌==◌, neg, add32, Exec, done, invalid_access, out_of_fuel,
  pure, modify, ◌>>=◌, ◌>>◌,
}
use psvemmc.Log.Lines.{int, str, sdstor_line}
use psvemmc.Dump.{Dumps, dump_iofilemgr_data, dump_sdstor_data, dump_sdif_data, dump_exfatfs_data}
use psvemmc.Driver.Hooks.{log_lines}
use psvemmc.Driver.Nodes.{World, System, load, load_string, print_line, print_vfs_node}
use psvemmc.Driver.Nodes.Texts

-- A function of driver/dump.c, whose result is not used.
abbrev pub on_dumps : Exec Dumps ℕ → Exec World (Unit {0})
on_dumps m w = elim (m w.dumps) [
  | done (r, d) ↦ done (tt, record w { dumps = d })
  | invalid_access ↦ invalid_access
  | out_of_fuel ↦ out_of_fuel
]

-- The lines of a hook by the argument and the result, with the members that they show.
abbrev pub func12_lines : System → ℕ → ℕ → Exec World (List (List ℕ))
func12_lines sys ctx res = load ctx 12 >>= λ block_device_name.
    load_string block_device_name >>= λ name.
    pure (sys.snprintf Texts.func12 (int ctx ∷ str name ∷ []) ∷ [])

abbrev pub func13_lines : System → ℕ → ℕ → Exec World (List (List ℕ))
func13_lines sys ctx res = load ctx 4 >>= λ block_device_name.
    load_string block_device_name >>= λ device. load ctx 16 >>= λ numeric_name.
    load_string numeric_name >>= λ numeric. pure (
      sys.snprintf Texts.func13 (int ctx ∷ [])
      ∷ sys.snprintf Texts.func13_args (str device ∷ str numeric ∷ int res ∷ [])
      ∷ [])

abbrev pub func1_lines : System → ℕ → ℕ → Exec World (List (List ℕ))
func1_lines sys ctx res = load ctx 4 >>= λ arg1. load arg1 0 >>= λ block_device.
    load_string block_device >>= λ device. load arg1 8 >>= λ unix_mount.
    load_string unix_mount >>= λ mount. pure (
      sys.snprintf Texts.node_func1 (int ctx ∷ [])
      ∷ sys.snprintf Texts.node_func1_args (str device ∷ str mount ∷ int res ∷ [])
      ∷ [])

abbrev pub func4_lines : System → ℕ → ℕ → Exec World (List (List ℕ))
func4_lines sys ctx res = load ctx 0 >>= λ node. load ctx 8 >>= λ dev.
    load dev 0 >>= λ block_device_name. load_string block_device_name >>= λ name.
    load ctx 4 >>= λ new_node. load new_node 0 >>= λ new. load ctx 12 >>= λ arg3. pure (
      sys.snprintf Texts.node_func4 (int ctx ∷ [])
      ∷ sys.snprintf Texts.node_func4_args (int node ∷ str name ∷ int new ∷ int arg3 ∷ int res ∷ [])
      ∷ [])

abbrev pub func7_lines : System → ℕ → ℕ → Exec World (List (List ℕ))
func7_lines sys ctx res = load ctx 0 >>= λ node. load ctx 4 >>= λ arg1. load ctx 8 >>= λ arg2.
    load ctx 12 >>= λ arg3. load ctx 16 >>= λ arg_0. pure (
      sys.snprintf Texts.node_func7 (int ctx ∷ [])
      ∷ sys.snprintf Texts.node_func7_args
          (int node ∷ int arg1 ∷ int arg2 ∷ int arg3 ∷ int arg_0 ∷ int res ∷ [])
      ∷ [])

-- The last line shows the two counters.
abbrev pub func9_lines : System → ℕ → ℕ → Exec World (List (List ℕ))
func9_lines sys ctx res = load ctx 0 >>= λ node0. load ctx 4 >>= λ node1. load ctx 8 >>= λ arg2.
    load arg2 0 >>= λ block_device_name. load_string block_device_name >>= λ name.
    load ctx 12 >>= λ arg3. (λ w.
      pure
        (sys.snprintf Texts.node_func9 (int ctx ∷ [])
          ∷ sys.snprintf Texts.node_func9_args
              (int node0 ∷ int node1 ∷ str name ∷ int arg3 ∷ int res ∷ [])
          ∷ sys.snprintf Texts.nums (int w.func5_num ∷ int w.func6_num ∷ [])
          ∷ [])
        w)

module _ (sys : System) where
  -- The member of the argument that is a node.
  abbrev pub print_node_at : ℕ → ℕ → Exec World (Unit {0})
  print_node_at ctx offset = load ctx offset >>= print_vfs_node sys

  -- *args->new_node
  abbrev pub print_new_node : ℕ → Exec World (Unit {0})
  print_new_node ctx = load ctx 4 >>= λ new_node. load new_node 0 >>= print_vfs_node sys

  abbrev pub dump_all : Exec World (Unit {0})
  dump_all =
      on_dumps (dump_iofilemgr_data sys.dump)
      >> (on_dumps (dump_sdstor_data sys.dump)
          >> (on_dumps (dump_sdif_data sys.dump) >> on_dumps (dump_exfatfs_data sys.dump)))

  -- What a hook does once it has logged the call.
  abbrev pub blank_finish : ℕ → Exec World (Unit {0})
  blank_finish ctx = print_line sys Texts.blank

  abbrev pub func1_finish : ℕ → Exec World (Unit {0})
  func1_finish ctx = print_node_at ctx 0 >> (print_line sys Texts.blank >> dump_all)

  abbrev pub func4_finish : ℕ → Exec World (Unit {0})
  func4_finish ctx =
      print_node_at ctx 0
      >> (print_line sys Texts.separator >> (print_new_node ctx >> print_line sys Texts.blank))

  abbrev pub func7_finish : ℕ → Exec World (Unit {0})
  func7_finish ctx = print_node_at ctx 0 >> print_line sys Texts.blank

  abbrev pub func9_finish : ℕ → Exec World (Unit {0})
  func9_finish ctx =
      print_node_at ctx 0
      >> (print_line sys Texts.separator >> (print_node_at ctx 4 >> print_line sys Texts.blank))

  abbrev pub enter : World → World
  enter w = record w { entered = 1 }

  -- open_sdstor_dev_fs_log, the lines, close_sdstor_dev_fs_log, and the end of the guard.
  abbrev pub log_call : List (List ℕ) → World → World
  log_call lines w = record w {
    guards = w.guards ++ (w.entered ∷ []);
    log = log_lines sys.io lines w.log;
    entered = 0;
  }

  -- A hook, from its guard on.
  abbrev pub run_node_hook :
      (ℕ → ℕ → Exec World (List (List ℕ))) → (ℕ → Exec World (Unit {0})) → ℕ → Exec World ℕ
  run_node_hook lines finish ctx w =
      let out = sys.tai_continue ctx w in
      let run = lines ctx out.0 >>= λ ls. modify (log_call ls) >> (finish ctx >> pure out.0) in
      if w.entered == 1 then pure (neg 1) w else run (enter out.1)

  unfoldable pub vfs_func12 : ℕ → Exec World ℕ
  unfolding log_lines sdstor_line
  vfs_func12 = run_node_hook (func12_lines sys) blank_finish

  unfoldable pub vfs_func13 : ℕ → Exec World ℕ
  unfolding log_lines sdstor_line
  vfs_func13 = run_node_hook (func13_lines sys) blank_finish

  unfoldable pub vfs_node_func1 : ℕ → Exec World ℕ
  unfolding log_lines print_vfs_node sdstor_line dump_iofilemgr_data dump_sdstor_data dump_sdif_data
      dump_exfatfs_data
  vfs_node_func1 = run_node_hook (func1_lines sys) func1_finish

  unfoldable pub vfs_node_func4 : ℕ → Exec World ℕ
  unfolding log_lines print_vfs_node sdstor_line
  vfs_node_func4 = run_node_hook (func4_lines sys) func4_finish

  unfoldable pub vfs_node_func7 : ℕ → Exec World ℕ
  unfolding log_lines print_vfs_node sdstor_line
  vfs_node_func7 = run_node_hook (func7_lines sys) func7_finish

  unfoldable pub vfs_node_func9 : ℕ → Exec World ℕ
  unfolding log_lines print_vfs_node sdstor_line
  vfs_node_func9 = run_node_hook (func9_lines sys) func9_finish

  -- The hooks that only count their calls.
  unfoldable pub vfs_node_func5 : ℕ → World → ℕ × World
  vfs_node_func5 ctx w =
      let out = sys.tai_continue ctx w in
      (out.0, record out.1 { func5_num = add32 out.1.func5_num 1 })

  unfoldable pub vfs_node_func6 : ℕ → World → ℕ × World
  vfs_node_func6 ctx w =
      let out = sys.tai_continue ctx w in
      (out.0, record out.1 { func6_num = add32 out.1.func6_num 1 })
