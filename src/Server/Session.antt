-- ===== src/Server/Session.antt =====
-- server/src/main.c: a session of a client whose pool is ready: what is assumed of its parameters, and
-- what a session keeps.
use psvemmc.Base.{
  ℕ, ◌*◌, ◌≤◌, ◌<◌, ◌≡◌, true, List, ◌++◌, arith, word, length, drop, length-append, length-drop,
  ◌∙◌,
}
use psvemmc.Pool.{Pool, cluster_size, reach, replace}
use psvemmc.Pool.Lifecycle.{IsPool, IsSized}
use psvemmc.Driver.{Driver}
use psvemmc.Driver.Reads.{Medium, IsMedium, ReadsFrom, IsKernel, Kept, length-replace}
use psvemmc.Driver.Correct.{Device, emmc, ms, gc}
use psvemmc.Server.State.{Net, Server, Sys}
use psvemmc.Server.Transfer.{IsNet, Sends}
use psvemmc.Server.Steps.{Sent}
use psvemmc.Server.Clusters.{pool_bytes}

-- What the server relies on: sockets and the kernel behave as documented, and each context of SceSdif
-- and the memory card reads from a medium.
pub record IsSys (sys : Sys) (card : ℕ → Medium) (stick : Medium) : Type 0 where
  pub net_law : IsNet sys.net
  pub kernel_law : IsKernel sys.kernel
  pub blocks_law : IsSized sys.blocks
  pub local_law : (t n : ℕ) → length (sys.local_bytes t n) ≡ n
  pub card_medium : (ctx : ℕ) → IsMedium (card ctx)
  pub card_reads : (ctx : ℕ) → ReadsFrom (sys.kernel.sdif_read ctx) (card ctx)
  pub stick_medium : IsMedium stick
  pub stick_reads : ReadsFrom sys.kernel.msif_read stick

abbrev pub medium : (ℕ → Medium) → Medium → Device → Driver → Medium
medium card stick emmc d = card d.emmc_ctx
medium card stick ms d = stick
medium card stick gc d = card d.gc_ctx

-- The server's pool is ready, and the driver's, if it is ready, has clusters of the same size, which
-- is below 2^32.
pub record Fit (user kernel : Pool) : Type 0 where
  pub ready : user.initialized ≡ true
  pub user_pool : IsPool user
  pub kernel_pool : IsPool kernel
  pub fits : user.sectors_per_cluster * 512 < word
  pub in_sync : kernel.initialized ≡ true → kernel.sectors_per_cluster ≡ user.sectors_per_cluster

-- The session goes on, and time has passed.
abbrev pub After : Server → Server → Type 0
After s s' = Fit s'.pool s'.driver.pool × (s.clock < s'.clock)

abbrev pub IsReady : Server → Type 0
IsReady s = Fit s.pool s.driver.pool

-- The pool's memory has the size of a cluster.
pub pool_size : (s : Server) → IsReady s → length (pool_bytes s) ≡ cluster_size s.pool
pool_size s f = f.user_pool.sized f.ready

pub Sent-After :
    (net : Net) (s m : Server) (bytes : List ℕ) (s' : Server)
    → IsReady m
    → s.clock ≤ m.clock
    → Sent net m bytes s'
    → After s s'
Sent-After net s m bytes s' f c e = rw e (f, omega arith)

pub Sends-After :
    (net : Net) (s m : Server) (bytes : List ℕ) (out : ℕ × Server)
    → IsReady m
    → s.clock < m.clock
    → Sends net m bytes out
    → After s out.1
Sends-After net s m bytes out f c (n, t, e, h, r) = rw e (f, omega arith)

pub Fit-user :
    (p q : Pool) (bytes : List ℕ)
    → length bytes ≡ length (reach p.memory)
    → Fit p q
    → Fit (record p { memory = replace p.memory bytes }) q
Fit-user p q bytes e f = record {
  ready = f.ready;
  user_pool = record {
    sized = λ r. length-replace p.memory bytes e ∙ f.user_pool.sized r;
    by_sector = f.user_pool.by_sector;
    dead = λ r. cc (f.ready);
  };
  kernel_pool = f.kernel_pool;
  fits = f.fits;
  in_sync = f.in_sync;
}

pub Fit-kernel : (p : Pool) (d d' : Driver) → Kept d d' → Fit p d.pool → Fit p d'.pool
Fit-kernel p d d' (memory, t, e, l, n) f = rw e (record {
  ready = f.ready;
  user_pool = f.user_pool;
  kernel_pool = record {
    sized = λ r. l ∙ f.kernel_pool.sized r;
    by_sector = f.kernel_pool.by_sector;
    dead = λ r. n (f.kernel_pool.dead r);
  };
  fits = f.fits;
  in_sync = f.in_sync;
})

-- A part of a cluster that came is written over the start of the memory.
pub length-cut :
    (bytes held : List ℕ)
    → length bytes < length held
    → length (bytes ++ drop (length bytes) held) ≡ length held
length-cut bytes held h =
    omega (arith, length-append bytes (drop (length bytes) held), length-drop (length bytes) held)
