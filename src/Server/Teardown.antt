-- ===== src/Server/Teardown.antt =====
-- server/src/main.c: the command deinit, and what the commands on clusters do without a pool.
use psvemmc.Base.{
  ℕ, ◌+◌, ◌<◌, ◌≡◌, ◌⊎◌, inl, inr, refl, ◌∙◌, Bool, true, false, List, arith, if◌then◌else◌, not,
  ◌==◌, is_neg, word, length, leb, Exec, invalid_access, Returns, Returns-unless, ◌>>=◌, Bool-cases,
  eq→==, ne→==, lt→leb_false, sub32, slice,
}
use psvemmc.Pool.{Pool, cluster_size, reach, deinitialize}
use psvemmc.Pool.Lifecycle.{
  IsPool, deinitialize-IsPool, deinitialize_sizes, deinitialize_freed, deinitialize_stuck,
}
use psvemmc.Driver.{psvemmc_deinitialize}
use psvemmc.Server.State.{Net, recv_loop, Server, Sys, recv_all}
use psvemmc.Server.Protocol.{Command, encode, blank}
use psvemmc.Server.Handlers.{Write, handle_command_3, handle_write_cluster}
use psvemmc.Server.Steps.{Sent}
use psvemmc.Server.Sectors.{number, requested}
use psvemmc.Server.Session.{Fit, IsReady}
use psvemmc.Server.Setup.{Idle, IsIdle}

-- The kernel takes the block of a pool back.
abbrev pub Freed : Pool → (ℕ → ℕ → ℕ) → Type 0
Freed p free = is_neg (free p.clock p.cluster_pool) ≡ false

-- What deinit makes of a ready session.
abbrev pub Deinitialized : Sys → Server → Server → Type 0
Deinitialized sys s s' =
    let kernel = psvemmc_deinitialize sys.kernel s.driver in
    let user = deinitialize sys.blocks s.pool in
    Sent sys.net (record s { pool = user.1; driver = kernel.1 })
      (encode (record (blank Command.deinit 0) { vita_err = user.0; proxy_err = kernel.0 })) s'
    × ((IsReady s' × (s'.driver.pool.initialized ≡ false) × (Freed s.pool sys.blocks.free → ⊥))
        ⊎ (IsIdle s' × Freed s.pool sys.blocks.free))
    × (cluster_size s'.pool ≡ cluster_size s.pool)

-- The command deinit of a ready session returns, where the kernel takes the driver's block back, if
-- there is one. If the kernel takes the server's own block back, too, no pool is ready afterwards on
-- either side; if it does not, the server's pool stays ready and the driver's is not. The sizes stay
-- as they were, and one call of send gets the response with the results of both calls.
pub handle_command_3_lem :
    (sys : Sys) (s : Server)
    → IsReady s
    → (s.driver.pool.initialized ≡ true → Freed s.driver.pool sys.kernel.blocks.free)
    → Returns (handle_command_3 sys s) (λ out. Deinitialized sys s out.1)
unfolding handle_command_3 psvemmc_deinitialize
handle_command_3_lem sys s f freed =
    Returns-unless s.pool.initialized _ _ (λ out. Deinitialized sys s out.1) (λ n. cc (f.ready))
      (λ r. (refl, pools_after, sizes_after))
  where
    user : Pool
    user = (deinitialize sys.blocks s.pool).1

    kernel : Pool
    kernel = (deinitialize sys.kernel.blocks s.driver.pool).1

    kernel_freed : kernel.initialized ≡ false
    kernel_freed = deinitialize_freed sys.kernel.blocks s.driver.pool freed

    user_kept : user.sectors_per_cluster ≡ s.pool.sectors_per_cluster
    user_kept = (deinitialize_sizes sys.blocks s.pool).1

    pools_after :
        (Fit user kernel × (kernel.initialized ≡ false) × (Freed s.pool sys.blocks.free → ⊥))
        ⊎ (Idle user kernel × Freed s.pool sys.blocks.free)
    pools_after = elim (Bool-cases (is_neg (sys.blocks.free s.pool.clock s.pool.cluster_pool))) [
      | inl stuck ↦ inl (
        record {
          ready = deinitialize_stuck sys.blocks s.pool f.ready stuck;
          user_pool = deinitialize-IsPool sys.blocks s.pool f.user_pool;
          kernel_pool = deinitialize-IsPool sys.kernel.blocks s.driver.pool f.kernel_pool;
          fits = rw user_kept f.fits;
          in_sync = λ r. cc (kernel_freed);
        },
        kernel_freed,
        λ free. cc (stuck, free),
      )
      | inr free ↦ inr (
        record {
          user_idle = deinitialize_freed sys.blocks s.pool (λ r. free);
          kernel_idle = kernel_freed;
          user_pool = deinitialize-IsPool sys.blocks s.pool f.user_pool;
          kernel_pool = deinitialize-IsPool sys.kernel.blocks s.driver.pool f.kernel_pool;
        },
        free,
      )
    ]

    sizes_after : cluster_size user ≡ cluster_size s.pool
    sizes_after = rw ((deinitialize_sizes sys.blocks s.pool).0, user_kept) refl

-- A freed or never allocated pool keeps the sizes of the last request.
unready_short :
    (p : Pool)
    → IsPool p
    → p.initialized ≡ false
    → 0 < cluster_size p
    → length (reach p.memory) < cluster_size p
unready_short p v idle pos = rw (v.dead idle) pos

-- Receiving more bytes than the buffer has.
recv_all_short :
    (net : Net) (buffer : List ℕ) (n : ℕ) (s : Server)
    → n < word
    → length buffer < n
    → recv_all net buffer n s ≡ invalid_access
unfolding recv_all recv_loop
recv_all_short net buffer n s w h =
    let e : sub32 n 0 ≡ n = omega arith in
    let nz : (n == 0) ≡ false = ne→== n 0 (omega arith) in
    let over : leb (0 + n) (length buffer) ≡ false = lt→leb_false _ _ (omega arith) in
    rw (nz, e, ◌>>=◌, slice, over)

guard-passes :
    {S A : Type 0} (b : Bool) (f g : Exec S A) (s : S) → b ≡ true → (if not b then f else g) s ≡ g s
guard-passes true f g s e = refl
guard-passes false f g s e = absurd (ground arith)

bind-invalid :
    {S A B : Type 0} (m : Exec S A) (f : A → Exec S B) (s : S)
    → m s ≡ invalid_access
    → (m >>= f) s ≡ invalid_access
bind-invalid m f s e = rw (◌>>=◌, e)

-- A request to write a cluster that comes whole while no pool is ready, after the sizes were set (by
-- an init that failed, or before a deinit), makes the server receive into memory that it does not
-- own. This holds for each of the three devices and any data.
pub dead_cluster_write :
    (sys : Sys) (s : Server) (c : Command) (write : Write)
    → IsIdle s
    → 0 < cluster_size s.pool
    → (number sys.net s).0 ≡ 4
    → handle_write_cluster sys c write s ≡ invalid_access
unfolding handle_write_cluster
dead_cluster_write sys s c write i pos whole =
    let s1 = requested sys.net s in
    guard-passes ((number sys.net s).0 == 4) _ _ s1 (eq→== _ 4 whole)
    ∙ bind-invalid (recv_all sys.net (reach s.pool.memory) (cluster_size s.pool)) _ s1 (
        recv_all_short sys.net (reach s.pool.memory) (cluster_size s.pool) s1 (omega arith)
          (unready_short s.pool i.user_pool i.user_idle pos))
