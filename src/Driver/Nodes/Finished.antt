-- ===== src/Driver/Nodes/Finished.antt =====
-- driver/hooks_vfs_ops.c: what the hooks that log nodes do once the call is logged: it leaves the logs,
-- the memory and the files as the other calls need them.
use psvemmc.Base.{ℕ, suc, ◌+◌, ◌<◌, ◌≡◌, sym, ◌∙◌, subst, false, ◌==◌, word, ◌>>◌}
use psvemmc.Driver.Nodes.{World, System, print_line}
use psvemmc.Driver.Nodes.Hooks.{
  blank_finish, func1_finish, func4_finish, func7_finish, func9_finish, print_node_at,
  print_new_node, dump_all,
}
use psvemmc.Driver.Nodes.Logged.{
  HasSegments, BothLogs, Calms, then-Calms, print_line-Calms, print_node_at-Calms,
  print_new_node-Calms, dump_all-Calms,
}
use psvemmc.Driver.Nodes.Texts

module _ (sys : System) (n : ℕ) (few : suc n < word) where
  pub blank_finish-Calms :
      (ctx : ℕ) (w : World) → BothLogs sys n w → Calms sys n w (blank_finish sys ctx)
  blank_finish-Calms ctx w b = print_line-Calms sys n few Texts.blank w b

  pub func7_finish-Calms :
      (ctx : ℕ) (w : World)
      → (ctx == 0) ≡ false
      → BothLogs sys n w
      → Calms sys n w (func7_finish sys ctx)
  func7_finish-Calms ctx w e b =
      then-Calms sys n few (print_node_at sys ctx 0) (print_line sys Texts.blank) w
        (print_node_at-Calms sys n few ctx 0 w e b)
        (λ w1 c. print_line-Calms sys n few Texts.blank w1 c.logs)

  pub func9_finish-Calms :
      (ctx : ℕ) (w : World)
      → (ctx == 0) ≡ false
      → BothLogs sys n w
      → Calms sys n w (func9_finish sys ctx)
  func9_finish-Calms ctx w e b =
      let last = print_line sys Texts.blank in
      let second = print_node_at sys ctx 4 >> last in
      then-Calms sys n few (print_node_at sys ctx 0) (print_line sys Texts.separator >> second) w
        (print_node_at-Calms sys n few ctx 0 w e b)
        (λ w1 c1.
          then-Calms sys n few (print_line sys Texts.separator) second w1
            (print_line-Calms sys n few Texts.separator w1 c1.logs)
            (λ w2 c2.
              then-Calms sys n few (print_node_at sys ctx 4) last w2
                (print_node_at-Calms sys n few ctx 4 w2 e c2.logs)
                (λ w3 c3. print_line-Calms sys n few Texts.blank w3 c3.logs)))

  pub func4_finish-Calms :
      (ctx : ℕ) (w : World)
      → (ctx == 0) ≡ false
      → (w.memory.word_at (ctx + 4) == 0) ≡ false
      → BothLogs sys n w
      → Calms sys n w (func4_finish sys ctx)
  func4_finish-Calms ctx w e e' b =
      let last = print_line sys Texts.blank in
      let second = print_new_node sys ctx >> last in
      then-Calms sys n few (print_node_at sys ctx 0) (print_line sys Texts.separator >> second) w
        (print_node_at-Calms sys n few ctx 0 w e b)
        (λ w1 c1.
          then-Calms sys n few (print_line sys Texts.separator) second w1
            (print_line-Calms sys n few Texts.separator w1 c1.logs)
            (λ w2 c2.
              let set : (w2.memory.word_at (ctx + 4) == 0) ≡ false =
                subst (λ m. (m.word_at (ctx + 4) == 0) ≡ false)
                  (sym (c2.same_memory ∙ c1.same_memory)) e' in
              then-Calms sys n few (print_new_node sys ctx) last w2
                (print_new_node-Calms sys n few ctx w2 e set c2.logs)
                (λ w3 c3. print_line-Calms sys n few Texts.blank w3 c3.logs)))

  pub func1_finish-Calms :
      (segments : HasSegments sys.dump) (ctx : ℕ) (w : World)
      → (ctx == 0) ≡ false
      → BothLogs sys n w
      → Calms sys n w (func1_finish sys ctx)
  func1_finish-Calms segments ctx w e b =
      let blank = print_line sys Texts.blank in
      then-Calms sys n few (print_node_at sys ctx 0) (blank >> dump_all sys) w
        (print_node_at-Calms sys n few ctx 0 w e b)
        (λ w1 c1.
          then-Calms sys n few blank (dump_all sys) w1
            (print_line-Calms sys n few Texts.blank w1 c1.logs)
            (λ w2 c2. dump_all-Calms sys n few segments w2 c2.logs))
