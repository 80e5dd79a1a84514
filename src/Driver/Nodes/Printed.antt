-- ===== src/Driver/Nodes/Printed.antt =====
-- driver/hooks_vfs_ops.c: print_vfs_node follows no null pointer, whatever the memory holds.
use psvemmc.Base.{
  ℕ, suc, ◌+◌, ◌<◌, ◌≡◌, inl, inr, refl, ap, ◌∙◌, false, List, [], ◌∷◌, arith, ◌==◌, ne→==, word,
  Bool-cases, Exec, Outcome, pure, modify, ◌>>=◌, ◌>>◌, Returns, Returns-mono, Returns-bind,
}
use psvemmc.Log.{Log}
use psvemmc.Log.Reached.{Reached}
use psvemmc.Log.Lines.{int, str, sdstor_line-Reached}
use psvemmc.Driver.Nodes.{
  World, System, load, load_string, log_line, print_line, print_prev_node, print_partition,
  print_praw, print_initialized, print_nodes, print_named, print_rest, print_members, print_device,
  print_sd_stor_dev_name_by_address, print_dev_info, print_vfs_node,
}
use psvemmc.Driver.Nodes.Texts

-- Only the log changed, and it is in a state with n users.
abbrev pub LogOnly : System → ℕ → World → World → Type 0
LogOnly sys n w w' = (l : Log) × (w' ≡ record w { log = l }) × Reached sys.io n l

-- The call returns, and only the log changed.
abbrev pub Prints : System → ℕ → World → Outcome (Unit {0} × World) → Type 0
Prints sys n w o = Returns o (λ out. LogOnly sys n w out.1)

module _ (sys : System) (n : ℕ) (few : suc n < word) where
  -- What is proved of every state of the log carries over to the calls that follow.
  LogOnly-trans : (w w1 w2 : World) → LogOnly sys n w w1 → LogOnly sys n w1 w2 → LogOnly sys n w w2
  LogOnly-trans w w1 w2 (l1, e1, r1) (l2, e2, r2) =
      (l2, e2 ∙ ap (λ (x : World). record x { log = l2 }) e1, r2)

  LogOnly-log : (w w1 : World) → LogOnly sys n w w1 → Reached sys.io n w1.log
  LogOnly-log w w1 (l1, e1, r1) = rw (ap (λ (x : World). x.log) e1) r1

  pub log_line-LogOnly :
      (line : List ℕ) (w : World) → Reached sys.io n w.log → LogOnly sys n w (log_line sys line w)
  log_line-LogOnly line w r = (_, refl, sdstor_line-Reached sys.io line n w.log few r)

  pub then-Prints :
      (a b : Exec World (Unit {0})) (w : World)
      → Prints sys n w (a w)
      → ((w1 : World) → Reached sys.io n w1.log → Prints sys n w1 (b w1))
      → Prints sys n w ((a >> b) w)
  then-Prints a b w h k =
      Returns-bind a (λ x. b) w (λ out. LogOnly sys n w out.1) _ h
        (λ x w1 p.
          Returns-mono (b w1) _ _ (λ out q. LogOnly-trans w w1 out.1 p q)
            (k w1 (LogOnly-log w w1 p)))

  -- A member behind a pointer that is not null.
  load-Prints :
      (p offset : ℕ) (f : ℕ → Exec World (Unit {0})) (w : World)
      → (p == 0) ≡ false
      → ((v : ℕ) → Prints sys n w (f v w))
      → Prints sys n w ((load p offset >>= f) w)
  load-Prints p offset f w e k = rw (◌>>=◌, load, e) (k (w.memory.word_at (p + offset)))

  line-Prints :
      (line : List ℕ) (w : World) → Reached sys.io n w.log → Prints sys n w (print_line sys line w)
  line-Prints line w r = log_line-LogOnly line w r

  print_prev_node-Prints :
      (node : ℕ) (w : World)
      → (node == 0) ≡ false
      → Reached sys.io n w.log
      → Prints sys n w (print_prev_node sys node w)
  unfolding print_prev_node
  print_prev_node-Prints node w e r = load-Prints node 80 (print_nodes sys node) w e (λ prev.
      elim (Bool-cases (prev == 0)) [
        | inl z ↦ rw z (line-Prints Texts.no_prev_node w r)
        | inr z ↦ rw z (
            load-Prints prev 84
              (λ v. print_line sys (sys.snprintf Texts.nodes (int node ∷ int v ∷ []))) w z
              (λ v. line-Prints _ w r))
      ])

  load_string-Prints :
      (p : ℕ) (f : List ℕ → Exec World (Unit {0})) (w : World)
      → (p == 0) ≡ false
      → ((v : List ℕ) → Prints sys n w (f v w))
      → Prints sys n w ((load_string p >>= f) w)
  load_string-Prints p f w e k = rw (◌>>=◌, load_string, e) (k (w.memory.string_at p))

  nothing-Prints : (w : World) → Reached sys.io n w.log → Prints sys n w (pure tt w)
  nothing-Prints w r = (w.log, refl, r)

  print_praw-Prints :
      (praw : ℕ) (w : World) → Reached sys.io n w.log → Prints sys n w (print_praw sys praw w)
  print_praw-Prints praw w r = elim (Bool-cases (praw == 0)) [
    | inl y ↦ rw y (line-Prints Texts.no_partition_raw w r)
    | inr y ↦ rw y (nothing-Prints w r)
  ]

  print_initialized-Prints :
      (prev : ℕ) (w : World)
      → Reached sys.io n w.log
      → Prints sys n w (print_initialized sys prev w)
  print_initialized-Prints prev w r = elim (Bool-cases (prev == 0)) [
    | inl y ↦ rw y (nothing-Prints w r)
    | inr y ↦ rw y (line-Prints _ w r)
  ]

  print_partition-Prints :
      (partition : ℕ) (w : World)
      → Reached sys.io n w.log
      → Prints sys n w (print_partition sys partition w)
  unfolding print_partition
  print_partition-Prints partition w r = elim (Bool-cases (partition == 0)) [
    | inl z ↦ rw z (line-Prints Texts.no_partition w r)
    | inr z ↦
        let named : (partition + 16 == 0) ≡ false =
          ne→== (partition + 16) 0 (λ e. omega (arith, e)) in
        rw z (
          load_string-Prints (partition + 16) (print_named sys partition) w named (λ name.
            let line = sys.snprintf Texts.partition (str name ∷ []) in
            then-Prints (print_line sys line) (load partition 12 >>= print_praw sys) w
              (line-Prints line w r)
              (λ w1 r1.
                load-Prints partition 12 (print_praw sys) w1 z
                  (λ praw. print_praw-Prints praw w1 r1))))
  ]

  print_device-LogOnly :
      (device : ℕ) (w : World)
      → Reached sys.io n w.log
      → LogOnly sys n w (print_device sys device w)
  unfolding print_device print_sd_stor_dev_name_by_address
  print_device-LogOnly device w r = elim (Bool-cases (device == 0)) [
    | inl z ↦ rw z (log_line-LogOnly Texts.no_device w r)
    | inr z ↦ rw z (log_line-LogOnly _ w r)
  ]

  print_members-Prints :
      (node partition device unk_8 : ℕ) (w : World)
      → (node == 0) ≡ false
      → Reached sys.io n w.log
      → Prints sys n w (print_members sys node partition device unk_8 w)
  unfolding print_members
  print_members-Prints node partition device unk_8 w e r =
      let line = sys.snprintf Texts.dev_info (int partition ∷ int device ∷ int unk_8 ∷ []) in
      let last = modify (print_device sys device) in
      let rest = print_rest sys node device in
      then-Prints (print_line sys line) (print_partition sys partition >> rest) w
        (line-Prints line w r)
        (λ w1 r1.
          then-Prints (print_partition sys partition) rest w1
            (print_partition-Prints partition w1 r1)
            (λ w2 r2.
              load-Prints node 80 (λ prev. print_initialized sys prev >> last) w2 e
                (λ prev.
                  then-Prints (print_initialized sys prev) last w2
                    (print_initialized-Prints prev w2 r2)
                    (λ w3 r3. print_device-LogOnly device w3 r3))))

  print_dev_info-Prints :
      (node dev_info : ℕ) (w : World)
      → (node == 0) ≡ false
      → Reached sys.io n w.log
      → Prints sys n w (print_dev_info sys node dev_info w)
  unfolding print_dev_info
  print_dev_info-Prints node dev_info w e r = elim (Bool-cases (dev_info == 0)) [
    | inl d ↦ rw d (line-Prints Texts.no_dev_info w r)
    | inr d ↦
        let members = print_members sys node in
        rw d (
          load-Prints dev_info 0
            (λ partition.
              load dev_info 4 >>= λ device. load dev_info 8 >>= members partition device)
            w d
            (λ partition.
              load-Prints dev_info 4 (λ device. load dev_info 8 >>= members partition device) w d
                (λ device.
                  load-Prints dev_info 8 (members partition device) w d
                    (λ unk_8. print_members-Prints node partition device unk_8 w e r))))
  ]

  -- The nodes of the file system, however they are linked, and whether or not their pointers are set:
  -- print_vfs_node returns, follows no null pointer, and changes nothing but the log of the SD driver,
  -- which it leaves with as many users as before, where another user still fits into the count.
  pub print_vfs_node-LogOnly :
      (node : ℕ) (w : World)
      → Reached sys.io n w.log
      → Returns (print_vfs_node sys node w) (λ out. LogOnly sys n w out.1)
  unfolding print_vfs_node
  print_vfs_node-LogOnly node w r = elim (Bool-cases (node == 0)) [
    | inl z ↦ rw z (line-Prints Texts.no_node w r)
    | inr z ↦ rw z (
        then-Prints (print_prev_node sys node) (load node 72 >>= print_dev_info sys node) w
          (print_prev_node-Prints node w z r)
          (λ w1 r1.
            load-Prints node 72 (print_dev_info sys node) w1 z
              (λ dev_info. print_dev_info-Prints node dev_info w1 z r1)))
  ]
