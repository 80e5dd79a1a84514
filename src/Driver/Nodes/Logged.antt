-- ===== src/Driver/Nodes/Logged.antt =====
-- driver/hooks_vfs_ops.c: what the hooks that log nodes of the file system do to their caller and to the
-- logs.
use psvemmc.Base.{
  ℕ, suc, ◌+◌, ◌<◌, ◌≡◌, refl, sym, ◌∙◌, subst, false, some, List, ◌==◌, word, get_elem?, Exec,
  Outcome, done, invalid_access, out_of_fuel, ◌>>=◌, ◌>>◌, Returns, Returns-mono, Returns-bind,
}
use psvemmc.Log.Reached.{Reached}
use psvemmc.Dump.{
  Dumps, dump_module, dump_iofilemgr_data, dump_sdstor_data, dump_sdif_data, dump_exfatfs_data,
}
use psvemmc.Dump
use psvemmc.Dump.Written.{Closed, dump_module_lem}
use psvemmc.Driver.Nodes.{World, System, load, load_string, print_line, print_vfs_node}
use psvemmc.Driver.Nodes.Hooks.{on_dumps, print_node_at, print_new_node, dump_all}
use psvemmc.Driver.Nodes.Printed.{LogOnly, log_line-LogOnly, print_vfs_node-LogOnly}

-- A call that only reads, and its result.
abbrev pub Reads : {A : Type 0} → Exec World A → World → A → Type 0
Reads m w v = m w ≡ done (v, w)

pub load-Reads :
    (p offset : ℕ) (w : World)
    → (p == 0) ≡ false
    → Reads (load p offset) w (w.memory.word_at (p + offset))
load-Reads p offset w e = rw e refl

pub load_string-Reads :
    (p : ℕ) (w : World) → (p == 0) ≡ false → Reads (load_string p) w (w.memory.string_at p)
load_string-Reads p w e = rw e refl

pub then-Reads :
    {A B : Type 0} (m : Exec World A) (f : A → Exec World B) (w : World) (v : A) (u : B)
    → Reads m w v
    → Reads (f v) w u
    → Reads (m >>= f) w u
then-Reads m f w v u h k = (rw (◌>>=◌, h) refl) ∙ k

-- Each of the four segments of a module is known.
abbrev pub HasSegments : Dump.Kernel → Type 0
HasSegments k =
    (id : ℕ)
    → (a : ℕ) × (size : ℕ) × (get_elem? (k.get_module_info id).1.segments 1 ≡ some (a, size))

-- Both logs are in states with n users.
abbrev pub BothLogs : System → ℕ → World → Type 0
BothLogs sys n w = Reached sys.io n w.log × Reached sys.dump.io n w.dumps.log

-- Both logs have n users still, and nothing else changed but the files of dumps, of which no more
-- are open.
pub record Calm (sys : System) (n : ℕ) (w w' : World) : Type 0 where
  pub logs : BothLogs sys n w'
  pub guard : w'.entered ≡ w.entered
  pub same_guards : w'.guards ≡ w.guards
  pub same_memory : w'.memory ≡ w.memory
  pub files : w'.dumps.open_files ≡ w.dumps.open_files

abbrev pub Calms : System → ℕ → World → Exec World (Unit {0}) → Type 0
Calms sys n w m = Returns (m w) (λ out. Calm sys n w out.1)

module _ (sys : System) (n : ℕ) (few : suc n < word) where
  Calm-trans : (w w1 w2 : World) → Calm sys n w w1 → Calm sys n w1 w2 → Calm sys n w w2
  Calm-trans w w1 w2 c d = record {
    logs = d.logs;
    guard = d.guard ∙ c.guard;
    same_guards = d.same_guards ∙ c.same_guards;
    same_memory = d.same_memory ∙ c.same_memory;
    files = d.files ∙ c.files;
  }

  LogOnly-Calm : (w w1 : World) → BothLogs sys n w → LogOnly sys n w w1 → Calm sys n w w1
  LogOnly-Calm w w1 b (l, e, r) =
      subst (λ x. Calm sys n w x) (sym e)
        (record {
          logs = (r, b.1);
          guard = refl;
          same_guards = refl;
          same_memory = refl;
          files = refl;
        })

  pub then-Calms :
      (a b : Exec World (Unit {0})) (w : World)
      → Calms sys n w a
      → ((w1 : World) → Calm sys n w w1 → Calms sys n w1 b)
      → Calms sys n w (a >> b)
  then-Calms a b w h k =
      Returns-bind a (λ x. b) w (λ out. Calm sys n w out.1) _ h
        (λ x w1 c.
          Returns-mono (b w1) (λ out. Calm sys n w1 out.1) _ (λ out d. Calm-trans w w1 out.1 c d)
            (k w1 c))

  pub print_line-Calms :
      (line : List ℕ) (w : World) → BothLogs sys n w → Calms sys n w (print_line sys line)
  print_line-Calms line w b = LogOnly-Calm w _ b (log_line-LogOnly sys n few line w b.0)

  print_vfs_node-Calms :
      (node : ℕ) (w : World) → BothLogs sys n w → Calms sys n w (print_vfs_node sys node)
  print_vfs_node-Calms node w b =
      Returns-mono (print_vfs_node sys node w) _ _ (λ out l. LogOnly-Calm w out.1 b l)
        (print_vfs_node-LogOnly sys n few node w b.0)

  -- What a call does with what another has read.
  Reads-Calms :
      {A : Type 0} (m : Exec World A) (f : A → Exec World (Unit {0})) (w : World) (v : A)
      → Reads m w v
      → Calms sys n w (f v)
      → Calms sys n w (m >>= f)
  Reads-Calms m f w v e c =
      subst (λ o. Returns o (λ out. Calm sys n w out.1)) (sym (rw (◌>>=◌, e) refl)) c

  pub print_node_at-Calms :
      (ctx offset : ℕ) (w : World)
      → (ctx == 0) ≡ false
      → BothLogs sys n w
      → Calms sys n w (print_node_at sys ctx offset)
  print_node_at-Calms ctx offset w e b =
      Reads-Calms (load ctx offset) (print_vfs_node sys) w _ (load-Reads ctx offset w e)
        (print_vfs_node-Calms _ w b)

  -- The other members of an argument that print_vfs_node gets.
  pub print_new_node-Calms :
      (ctx : ℕ) (w : World)
      → (ctx == 0) ≡ false
      → (w.memory.word_at (ctx + 4) == 0) ≡ false
      → BothLogs sys n w
      → Calms sys n w (print_new_node sys ctx)
  print_new_node-Calms ctx w e e' b =
      let new_node = w.memory.word_at (ctx + 4) in
      Reads-Calms (load ctx 4) (λ p. load p 0 >>= print_vfs_node sys) w new_node
        (load-Reads ctx 4 w e) (print_node_at-Calms new_node 0 w e' b)

  on_dumps-Calms :
      (segments : HasSegments sys.dump) (name ready failed : List ℕ) (w : World)
      → BothLogs sys n w
      → Calms sys n w (on_dumps (dump_module sys.dump name ready failed))
  on_dumps-Calms segments name ready failed w b =
      let (a, size, e) = segments (sys.dump.get_module_info_for_kernel name).1 in
      go (dump_module sys.dump name ready failed w.dumps) (
        Returns-mono (dump_module sys.dump name ready failed w.dumps) _ _ (λ out c. c.1)
          (dump_module_lem sys.dump n few name ready failed a size w.dumps e b.1))
    where
      go :
          (o : Outcome (ℕ × Dumps))
          → Returns o (λ out. Closed sys.dump n w.dumps out.1)
          → Returns {A = Unit {0} × World}
              (elim o as (λ x. Outcome (Unit {0} × World)) [
                | done (r, d) ↦ done (tt, record w { dumps = d })
                | invalid_access ↦ invalid_access
                | out_of_fuel ↦ out_of_fuel
              ])
              (λ out. Calm sys n w out.1)
      go (done (r, d)) c = record {
        logs = (b.0, c.0);
        guard = refl;
        same_guards = refl;
        same_memory = refl;
        files = c.1;
      }
      go invalid_access p = absurd p
      go out_of_fuel p = absurd p

  pub dump_all-Calms :
      (segments : HasSegments sys.dump) (w : World)
      → BothLogs sys n w
      → Calms sys n w (dump_all sys)
  unfolding dump_iofilemgr_data dump_sdstor_data dump_sdif_data dump_exfatfs_data
  dump_all-Calms segments w b =
      let k = sys.dump in
      let dump = on_dumps-Calms segments in
      let iofilemgr = on_dumps (dump_iofilemgr_data k) in
      let sdstor = on_dumps (dump_sdstor_data k) in
      let sdif = on_dumps (dump_sdif_data k) in
      let exfatfs = on_dumps (dump_exfatfs_data k) in
      then-Calms iofilemgr (sdstor >> (sdif >> exfatfs)) w
        (dump Dump.Texts.iofilemgr_name Dump.Texts.iofilemgr_ready Dump.Texts.iofilemgr_failed w b)
        (λ w1 c1.
          then-Calms sdstor (sdif >> exfatfs) w1
            (dump Dump.Texts.sdstor_name Dump.Texts.sdstor_ready Dump.Texts.sdstor_failed w1
              c1.logs)
            (λ w2 c2.
              then-Calms sdif exfatfs w2
                (dump Dump.Texts.sdif_name Dump.Texts.sdif_ready Dump.Texts.sdif_failed w2 c2.logs)
                (λ w3 c3.
                  dump Dump.Texts.exfatfs_name Dump.Texts.exfatfs_ready Dump.Texts.exfatfs_failed w3
                    c3.logs)))
