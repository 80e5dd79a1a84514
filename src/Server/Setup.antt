-- ===== src/Server/Setup.antt =====
-- server/src/main.c: the command init, which makes the two pools ready.
use psvemmc.Base.{
  ℕ, suc, ◌*◌, ◌<◌, ◌≡◌, ◌⊎◌, inl, inr, true, false, ◌==◌, word, of_bytes, take, drop, Returns,
  Returns-if, guard-Returns, Bool-cases, ==→eq, ==→ne, ◌∙◌, sym,
}
use psvemmc.Pool.{Pool, initialize}
use psvemmc.Pool.Lifecycle.{IsPool, IsSized, initialize-IsPool, initialize_result}
use psvemmc.Driver.{psvemmc_initialize}
use psvemmc.Server.State.{Server, Sys, delivered}
use psvemmc.Server.Receive.{after_recv}
use psvemmc.Server.Handlers.{handle_command_2}
use psvemmc.Server.Session.{Fit, IsReady}

-- No pool is ready, on either side.
pub record Idle (user kernel : Pool) : Type 0 where
  pub user_idle : user.initialized ≡ false
  pub kernel_idle : kernel.initialized ≡ false
  pub user_pool : IsPool user
  pub kernel_pool : IsPool kernel

abbrev pub IsIdle : Server → Type 0
IsIdle s = Idle s.pool s.driver.pool

module _ (sys : Sys) (user_size : IsSized sys.blocks)
    (kernel_size : IsSized sys.kernel.blocks) where
  -- The server's pool could not be made ready: the driver's is not touched.
  Idle-again :
      (b c : ℕ) (s : Server)
      → IsIdle s
      → ((initialize sys.blocks b c s.pool).0 == 0) ≡ false
      → Idle (initialize sys.blocks b c s.pool).1 s.driver.pool
  Idle-again b c s i e =
      let r = initialize_result sys.blocks b c s.pool in
      record {
        user_idle = elim (Bool-cases (initialize sys.blocks b c s.pool).1.initialized) [
          | inl ready ↦ absurd (==→ne _ 0 e ((r.0 i.user_idle).1 ready))
          | inr idle ↦ idle
        ];
        kernel_idle = i.kernel_idle;
        user_pool = initialize-IsPool sys.blocks b c s.pool user_size i.user_pool;
        kernel_pool = i.kernel_pool;
      }

  -- It was made ready, and the driver's may be too.
  Fit-now :
      (b c : ℕ) (s : Server)
      → IsIdle s
      → c * 512 < word
      → ((initialize sys.blocks b c s.pool).0 == 0) ≡ true
      → Fit (initialize sys.blocks b c s.pool).1 (initialize sys.kernel.blocks b c s.driver.pool).1
  Fit-now b c s i w e =
      let r = initialize_result sys.blocks b c s.pool in
      let z : (initialize sys.blocks b c s.pool).0 ≡ 0 = ==→eq _ 0 e in
      let k = initialize_result sys.kernel.blocks b c s.driver.pool in
      record {
        ready = (r.0 i.user_idle).0 z;
        user_pool = initialize-IsPool sys.blocks b c s.pool user_size i.user_pool;
        kernel_pool =
            initialize-IsPool sys.kernel.blocks b c s.driver.pool kernel_size i.kernel_pool;
        fits = rw (r.1 z).1 w;
        in_sync = λ ready. (k.1 ((k.0 i.kernel_idle).1 ready)).1 ∙ sym (r.1 z).1;
      }

  -- The command init, on a server and a driver whose pools are not ready, returns and leaves the
  -- server either ready for a session (both sides with clusters of the same size, or the driver's
  -- pool still not ready) or as idle as before. The request may come in part, with any sector size,
  -- and each allocation may fail; but the count of sectors that it asks for, if it comes whole, is
  -- assumed to make a cluster below 2^32 bytes, which the code does not check.
  pub handle_command_2_lem :
      (s : Server)
      → IsIdle s
      → of_bytes (take 4 (drop 4 (sys.net.recv s.clock s.cli_sock 8).1)) * 512 < word
      → Returns (handle_command_2 sys s) (λ out. IsReady out.1 ⊎ IsIdle out.1)
  unfolding handle_command_2 psvemmc_initialize
  handle_command_2_lem s i w =
      let got = sys.net.recv s.clock s.cli_sock 8 in
      let b = of_bytes (take 4 got.1) in
      let c = of_bytes (take 4 (drop 4 got.1)) in
      let s1 = after_recv s (delivered got) (suc s.clock) in
      let Q : ℕ × Server → Type 0 = λ out. IsReady out.1 ⊎ IsIdle out.1 in
      let res = (initialize sys.blocks b c s.pool).0 in
      let s2 = record s1 { pool = (initialize sys.blocks b c s.pool).1 } in
      Returns-if s.pool.initialized _ _ Q (λ r. cc (i.user_idle))
        (λ n.
          guard-Returns (got.0 == 8) _ _ s1 Q (λ cut. inr i)
            (λ whole.
              guard-Returns (res == 0) _ _ s2 Q (λ bad. inr (Idle-again b c s i bad))
                (λ good. inl (Fit-now b c s i w good))))
