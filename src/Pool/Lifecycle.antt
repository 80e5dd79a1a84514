-- ===== src/Pool/Lifecycle.antt =====
-- server/src/main.c and driver/psvemmc.c: the life of a pool, over any sequence of calls.
use psvemmc.Base.{ℕ, ◌≡◌, ◌↔◌, List, [], ◌∷◌, arith, length, neg, is_neg, true, false, none}
use psvemmc.Pool.{Pool, MemBlocks, initialize, deinitialize, cluster_size, reach, empty_pool}

-- A ready pool has memory of the size of a cluster and sectors of 0x200 bytes; a pool that is not
-- ready has no memory.
pub record IsPool (p : Pool) : Type 0 where
  pub sized : p.initialized ≡ true → length (reach p.memory) ≡ cluster_size p
  pub by_sector : p.initialized ≡ true → p.bytes_per_sector ≡ 512
  pub dead : p.initialized ≡ false → p.memory ≡ none

-- What the kernel promises of a block: it has the size that was asked for.
abbrev pub IsSized : MemBlocks → Type 0
IsSized m = (t n : ℕ) → length (m.fresh t n) ≡ n

pub initialize-IsPool :
    (m : MemBlocks) (b c : ℕ) (p : Pool) → IsSized m → IsPool p → IsPool (initialize m b c p).1
unfolding initialize
initialize-IsPool m b c p h v = ground (
  arith,
  h p.clock (cluster_size (record p { bytes_per_sector = b; sectors_per_cluster = c })),
  v.sized,
  v.by_sector,
  v.dead,
)

pub deinitialize-IsPool : (m : MemBlocks) (p : Pool) → IsPool p → IsPool (deinitialize m p).1
unfolding deinitialize
deinitialize-IsPool m p v = ground (arith, v.sized, v.by_sector, v.dead)

-- The calls that a program makes of a pool.
pub data Call : Type 0 where
  init : ℕ → ℕ → Call
  deinit : Call

abbrev step : MemBlocks → Pool → Call → Pool
step m p (init b c) = (initialize m b c p).1
step m p deinit = (deinitialize m p).1

abbrev pub run : MemBlocks → Pool → List Call → Pool
run m p [] = p
run m p (c ∷ cs) = run m (step m p c) cs

step-IsPool : (m : MemBlocks) (p : Pool) (c : Call) → IsSized m → IsPool p → IsPool (step m p c)
step-IsPool m p (init b c) h v = initialize-IsPool m b c p h v
step-IsPool m p deinit h v = deinitialize-IsPool m p v

run-IsPool :
    (m : MemBlocks) (p : Pool) (cs : List Call) → IsSized m → IsPool p → IsPool (run m p cs)
run-IsPool m p [] h v = v
run-IsPool m p (c ∷ cs) h v = run-IsPool m (step m p c) cs h (step-IsPool m p c h v)

pub empty_pool-IsPool : IsPool empty_pool
empty_pool-IsPool = ground arith

-- After any calls of initialize and deinitialize, in any order and whatever the kernel answers, a
-- ready pool has a block of exactly g_bytesPerSector * g_sectorsPerCluster bytes (as a 32-bit
-- product) with 0x200 bytes to the sector, and a pool that is not ready has no memory. The kernel is
-- assumed to hand out blocks of the size that was asked for.
pub calls-IsPool : (m : MemBlocks) (cs : List Call) → IsSized m → IsPool (run m empty_pool cs)
calls-IsPool m cs h = run-IsPool m empty_pool cs h empty_pool-IsPool

-- What initialize returns, and when it makes the pool ready.
pub initialize_result :
    (m : MemBlocks) (b c : ℕ) (p : Pool)
    → (p.initialized ≡ false
        → ((initialize m b c p).0 ≡ 0) ↔ ((initialize m b c p).1.initialized ≡ true))
      × ((initialize m b c p).0 ≡ 0
          → ((initialize m b c p).1.bytes_per_sector ≡ 512)
            × ((initialize m b c p).1.sectors_per_cluster ≡ c))
      × (p.initialized ≡ true → initialize m b c p ≡ (neg 1, p))
unfolding initialize
initialize_result m b c p = ground arith

-- On a pool that is not ready, initialize returns 0 exactly if it leaves the pool ready, whatever the
-- kernel answers and whatever sizes are asked for.
initialize-ready :
    (m : MemBlocks) (b c : ℕ) (p : Pool)
    → p.initialized ≡ false
    → ((initialize m b c p).0 ≡ 0) ↔ ((initialize m b c p).1.initialized ≡ true)
initialize-ready m b c p idle = (initialize_result m b c p).0 idle

-- A call of initialize with a sector size of 0x200 on a pool that is not ready, for which the kernel
-- has no memory, leaves the pool not ready and its pointer as it was, but it has stored the new
-- count of sectors already.
initialize_failed :
    (m : MemBlocks) (c : ℕ) (p : Pool)
    → p.initialized ≡ false
    → is_neg (
        m.alloc p.clock
          (cluster_size (record p { bytes_per_sector = 512; sectors_per_cluster = c })))
      ≡ true
    → ((initialize m 512 c p).1.initialized ≡ false)
      × ((initialize m 512 c p).1.memory ≡ p.memory)
      × ((initialize m 512 c p).1.sectors_per_cluster ≡ c)
unfolding initialize
initialize_failed m c p h e = ground arith

-- deinitialize undoes initialize: where the kernel gives the block and takes it back, the two calls
-- return 0 and the pool has no memory and can be made ready again.
deinitialize-initialize :
    (m : MemBlocks) (b c : ℕ) (p : Pool)
    → p.initialized ≡ false
    → (initialize m b c p).0 ≡ 0
    → is_neg (m.free (initialize m b c p).1.clock (initialize m b c p).1.cluster_pool) ≡ false
    → ((deinitialize m (initialize m b c p).1).0 ≡ 0)
      × ((deinitialize m (initialize m b c p).1).1.initialized ≡ false)
      × ((deinitialize m (initialize m b c p).1).1.memory ≡ none)
unfolding initialize deinitialize
deinitialize-initialize m b c p h e f = ground arith

-- deinitialize keeps the sizes.
pub deinitialize_sizes :
    (m : MemBlocks) (p : Pool)
    → ((deinitialize m p).1.bytes_per_sector ≡ p.bytes_per_sector)
      × ((deinitialize m p).1.sectors_per_cluster ≡ p.sectors_per_cluster)
unfolding deinitialize
deinitialize_sizes m p = ground arith

-- Where it does not, a ready pool stays ready.
pub deinitialize_stuck :
    (m : MemBlocks) (p : Pool)
    → p.initialized ≡ true
    → is_neg (m.free p.clock p.cluster_pool) ≡ true
    → (deinitialize m p).1.initialized ≡ true
unfolding deinitialize
deinitialize_stuck m p r h = ground (arith, h)

-- Where the kernel takes the block back, if there is one, the pool is not ready afterwards.
pub deinitialize_freed :
    (m : MemBlocks) (p : Pool)
    → (p.initialized ≡ true → is_neg (m.free p.clock p.cluster_pool) ≡ false)
    → (deinitialize m p).1.initialized ≡ false
unfolding deinitialize
deinitialize_freed m p h = ground (arith, h)
