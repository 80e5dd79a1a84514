-- ===== src/Pool.antt =====
-- The one-cluster pool that the user server (server/src/main.c, initializePool and
-- deinitializePool) and the kernel driver (driver/psvemmc.c, psvemmcInitialize and
-- psvemmcDeinitialize) each keep: five globals with the same names and the same code.
-- The block functions of the kernel are the parameter `MemBlocks`: the n-th call may answer
-- anything. A pointer to memory that was never allocated or was freed is `none`.
pub mod Lifecycle
use psvemmc.Base.{
  ℕ, suc, Bool, true, false, Option, none, some, List, [], if◌then◌else◌, not, ◌==◌, is_neg, neg,
  mul32,
}

-- sceKernelAllocMemBlock, sceKernelGetMemBlockBase and sceKernelFreeMemBlock, by the number of the
-- call: the results, and the bytes that a fresh block of a size holds.
pub record MemBlocks : Type 0 where
  pub alloc : ℕ → ℕ → ℕ
  pub get_base : ℕ → ℕ → ℕ
  pub free : ℕ → ℕ → ℕ
  pub fresh : ℕ → ℕ → List ℕ

pub record Pool : Type 0 where
  pub bytes_per_sector : ℕ
  pub sectors_per_cluster : ℕ
  pub initialized : Bool
  pub cluster_pool : ℕ
  pub memory : Option (List ℕ)
  pub clock : ℕ

abbrev pub empty_pool : Pool
empty_pool = record {
  bytes_per_sector = 0;
  sectors_per_cluster = 0;
  initialized = false;
  cluster_pool = 0;
  memory = none;
  clock = 0;
}

-- SD_DEFAULT_SECTOR_SIZE
abbrev pub sd_default_sector_size : ℕ
sd_default_sector_size = 512

-- g_bytesPerSector * g_sectorsPerCluster
abbrev pub cluster_size : Pool → ℕ
cluster_size p = mul32 p.bytes_per_sector p.sectors_per_cluster

-- The bytes that the pool's pointer reaches.
abbrev pub reach : Option (List ℕ) → List ℕ
reach none = []
reach (some bytes) = bytes

abbrev pub replace : Option (List ℕ) → List ℕ → Option (List ℕ)
replace none bytes = none
replace (some old) bytes = some bytes

abbrev tick : Pool → Pool
tick p = record p { clock = suc p.clock }

module _ (m : MemBlocks) where
  -- The block of a successful allocation: its base is looked up, and the pool is ready.
  base_block : ℕ → Pool → ℕ × Pool
  base_block allocated p =
      let res_1 = m.get_base p.clock p.cluster_pool in
      if is_neg res_1 then (res_1, tick p) else (
        0,
        record (tick p) { memory = some (m.fresh allocated (cluster_size p)); initialized = true },
      )

  alloc_block : Pool → ℕ × Pool
  unfolding base_block
  alloc_block p =
      let uid = m.alloc p.clock (cluster_size p) in
      let p' = record (tick p) { cluster_pool = uid } in
      if is_neg uid then (uid, p') else base_block p.clock p'

  unfoldable pub initialize : ℕ → ℕ → Pool → ℕ × Pool
  unfolding alloc_block
  initialize bytes_per_sector sectors_per_cluster p =
      if p.initialized
      then (neg 1, p)
      else if not (bytes_per_sector == sd_default_sector_size)
      then (neg 2, p)
      else alloc_block (record p {
        bytes_per_sector = bytes_per_sector;
        sectors_per_cluster = sectors_per_cluster;
      })

  unfoldable pub deinitialize : Pool → ℕ × Pool
  deinitialize p =
      if not p.initialized
      then (neg 1, p)
      else let res_1 = m.free p.clock p.cluster_pool in
        if is_neg res_1
        then (res_1, tick p)
        else (0, record (tick p) { initialized = false; memory = none })
