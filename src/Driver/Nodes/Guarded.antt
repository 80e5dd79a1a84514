-- ===== src/Driver/Nodes/Guarded.antt =====
-- driver/hooks_vfs_ops.c: what the hooks that log nodes of the file system give to their callers.
use psvemmc.Base.{ℕ, ◌+◌, ◌≡◌, ◌≢◌, ◌⊎◌, [], ◌∷◌, ◌++◌, neg, Exec}
use psvemmc.Driver.Nodes.{World, System}
use psvemmc.Driver.Nodes.Hooks.{
  vfs_func12, vfs_func13, vfs_node_func1, vfs_node_func4, vfs_node_func7, vfs_node_func9,
}
use psvemmc.Driver.Nodes.Logged.{BothLogs}

-- A hook whose variable is 1 gives -1 and does nothing; else the result is that of the hooked function,
-- the variable was 1 while the call was logged, once, and is 0 then, both logs have n users, and no more files are open than that
-- function left.
abbrev pub NodeLogged : System → ℕ → ℕ → World → ℕ × World → Type 0
NodeLogged sys n ctx w out =
    ((w.entered ≡ 1) × (out ≡ (neg 1, w)))
    ⊎ ((w.entered ≢ 1)
        × (out.0 ≡ (sys.tai_continue ctx w).0)
        × (out.1.entered ≡ 0)
        × (out.1.guards ≡ (sys.tai_continue ctx w).1.guards ++ (1 ∷ []))
        × BothLogs sys n out.1
        × (out.1.dumps.open_files ≡ (sys.tai_continue ctx w).1.dumps.open_files))

-- The hooks that log members of their argument, or nodes.
pub data NodeHook : Type 0 where
  func12 func13 node_func1 node_func4 node_func7 node_func9 : NodeHook

abbrev pub node_hook : System → NodeHook → ℕ → Exec World ℕ
node_hook sys func12 = vfs_func12 sys
node_hook sys func13 = vfs_func13 sys
node_hook sys node_func1 = vfs_node_func1 sys
node_hook sys node_func4 = vfs_node_func4 sys
node_hook sys node_func7 = vfs_node_func7 sys
node_hook sys node_func9 = vfs_node_func9 sys

-- The pointers that a hook follows without a test are not null, in the memory that the hooked function
-- leaves: the argument, the structures of names in it, and the names.
abbrev pub Readable : (ℕ → ℕ) → NodeHook → ℕ → Type 0
Readable at func12 ctx = (ctx ≢ 0) × (at (ctx + 12) ≢ 0)
Readable at func13 ctx = (ctx ≢ 0) × (at (ctx + 4) ≢ 0) × (at (ctx + 16) ≢ 0)
Readable at node_func1 ctx =
    (ctx ≢ 0) × (at (ctx + 4) ≢ 0) × (at (at (ctx + 4) + 0) ≢ 0) × (at (at (ctx + 4) + 8) ≢ 0)
Readable at node_func4 ctx =
    (ctx ≢ 0) × (at (ctx + 4) ≢ 0) × (at (ctx + 8) ≢ 0) × (at (at (ctx + 8) + 0) ≢ 0)
Readable at node_func7 ctx = ctx ≢ 0
Readable at node_func9 ctx = (ctx ≢ 0) × (at (ctx + 8) ≢ 0) × (at (at (ctx + 8) + 0) ≢ 0)
