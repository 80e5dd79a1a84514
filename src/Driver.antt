-- ===== src/Driver.antt =====
-- driver/psvemmc.c: the kernel driver. Its globals are a record, its calls into SceSdif, SceMsif and
-- the kernel the parameter `Kernel`, in which the n-th call may answer anything.
pub mod Devices
pub mod Reads
pub mod Reading
pub mod Correct
pub mod Module
pub mod Hooks
pub mod Nodes
use psvemmc.Base.{
  ℕ, suc, Bool, true, false, List, [], if◌then◌else◌, not, ◌==◌, ◌*◌, is_neg, neg, mul32, leb,
  length, take, Exec, Outcome, done, invalid_access, pure, gets, modify, slice, ◌>>=◌, ◌>>◌,
}
use psvemmc.Pool
use psvemmc.Pool.{MemBlocks, Pool, cluster_size, reach, replace, empty_pool, sd_default_sector_size}

-- A read gets the number of the call, the sector, the count of sectors and the bytes that the
-- buffer holds; it gives the result and the bytes that the buffer holds afterwards.
abbrev pub Reader : Type 0
Reader = ℕ → ℕ → ℕ → List ℕ → ℕ × List ℕ

pub record Kernel : Type 0 where
  pub blocks : MemBlocks
  -- What a local array of a size holds before it is written.
  pub stack : ℕ → ℕ → List ℕ
  -- ksceSdifReadSectorAsync, whose second argument is the context, and ksceMsifReadSector.
  pub sdif_read : ℕ → Reader
  pub msif_read : Reader
  -- ksceKernelMemcpyKernelToUser: the result and the count of bytes that were copied.
  pub copy_to_user : ℕ → List ℕ → ℕ × ℕ
  -- ksceSdifGetSdContextPartMmc and ...PartSd: a context or 0, for a device.
  pub part_mmc : ℕ → ℕ → ℕ
  pub part_sd : ℕ → ℕ → ℕ
  -- ksceSdifInitializeSdContextPartMmc: the result and the context that it stored.
  pub init_part_mmc : ℕ → ℕ → ℕ × ℕ
  -- ksceSdifGetSdContextGlobal(dev)->ctx_data.dev_type_idx.
  pub dev_type : ℕ → ℕ → ℕ

pub record Driver : Type 0 where
  pub emmc_ctx : ℕ
  pub gc_ctx : ℕ
  pub emmc_ctx_initialized : Bool
  pub gc_ctx_initialized : Bool
  pub ms_ctx_initialized : Bool
  pub pool : Pool
  pub clock : ℕ

-- The globals as the module is loaded.
abbrev pub loaded : Driver
loaded = record {
  emmc_ctx = 0;
  gc_ctx = 0;
  emmc_ctx_initialized = false;
  gc_ctx_initialized = false;
  ms_ctx_initialized = false;
  pool = empty_pool;
  clock = 0;
}

abbrev pub tick : Driver → Driver
tick d = record d { clock = suc d.clock }

-- A read function returns its result, and the bytes that it put at the start of the user's buffer.
abbrev pub Reply : Type 0
Reply = ℕ × List ℕ

-- One call of a device: n sectors go into a buffer, which must have room for them.
abbrev transfer : Reader → ℕ → ℕ → List ℕ → Exec Driver (ℕ × List ℕ)
transfer read sector n buffer d =
    if leb (n * sd_default_sector_size) (length buffer)
    then done (read d.clock sector n buffer, tick d)
    else invalid_access

-- g_sectorsPerCluster * cluster
abbrev pub first_sector : Driver → ℕ → ℕ
first_sector d cluster = mul32 d.pool.sectors_per_cluster cluster

abbrev set_memory : List ℕ → Driver → Driver
set_memory bytes d = record d { pool = record (d.pool) { memory = replace d.pool.memory bytes } }

module _ (k : Kernel) where
  -- The last step of a read: `len` bytes of the kernel's buffer go to the user's.
  abbrev to_user : ℕ → List ℕ → Exec Driver Reply
  to_user len buffer = do
    bytes ← slice 0 len buffer
    res_2 ← λ d. done (k.copy_to_user d.clock bytes, tick d)
    pure (if is_neg res_2.0 then (res_2.0, take res_2.1 bytes) else (0, take res_2.1 bytes))

  abbrev sector_from : Reader → ℕ → Exec Driver Reply
  sector_from read sector = do
    buffer_kernel ← gets (λ d. k.stack d.clock sd_default_sector_size)
    res_1 ← transfer read sector 1 buffer_kernel
    if is_neg res_1.0 then pure (res_1.0, []) else to_user sd_default_sector_size res_1.1

  abbrev cluster_from : Reader → ℕ → Exec Driver Reply
  cluster_from read cluster = do
    d ← gets (λ d. d)
    res_1 ← transfer read (first_sector d cluster) d.pool.sectors_per_cluster (reach d.pool.memory)
    modify (set_memory res_1.1)
    if is_neg res_1.0 then pure (res_1.0, []) else to_user (cluster_size d.pool) res_1.1

  unfoldable pub read_sector : ℕ → Exec Driver Reply
  read_sector sector d =
      if not d.emmc_ctx_initialized
      then done ((neg 1, []), d)
      else sector_from (k.sdif_read d.emmc_ctx) sector d

  unfoldable pub read_sector_gc : ℕ → Exec Driver Reply
  read_sector_gc sector d =
      if not d.gc_ctx_initialized
      then done ((neg 1, []), d)
      else sector_from (k.sdif_read d.gc_ctx) sector d

  unfoldable pub read_sector_ms : ℕ → Exec Driver Reply
  read_sector_ms sector d =
      if not d.ms_ctx_initialized then done ((neg 1, []), d) else sector_from k.msif_read sector d

  unfoldable pub read_cluster : ℕ → Exec Driver Reply
  read_cluster cluster d =
      if not d.emmc_ctx_initialized
      then done ((neg 1, []), d)
      else if not d.pool.initialized
      then done ((neg 2, []), d)
      else cluster_from (k.sdif_read d.emmc_ctx) cluster d

  unfoldable pub read_cluster_gc : ℕ → Exec Driver Reply
  read_cluster_gc cluster d =
      if not d.gc_ctx_initialized
      then done ((neg 1, []), d)
      else if not d.pool.initialized
      then done ((neg 2, []), d)
      else cluster_from (k.sdif_read d.gc_ctx) cluster d

  unfoldable pub read_cluster_ms : ℕ → Exec Driver Reply
  read_cluster_ms cluster d =
      if not d.ms_ctx_initialized
      then done ((neg 1, []), d)
      else if not d.pool.initialized
      then done ((neg 2, []), d)
      else cluster_from k.msif_read cluster d

  -- The pool functions of the driver, over its own pool.
  unfoldable pub psvemmc_initialize : ℕ → ℕ → Driver → ℕ × Driver
  psvemmc_initialize bytes_per_sector sectors_per_cluster d =
      let (res, p) = Pool.initialize k.blocks bytes_per_sector sectors_per_cluster d.pool in
      (res, record d { pool = p })

  unfoldable pub psvemmc_deinitialize : Driver → ℕ × Driver
  psvemmc_deinitialize d =
      let (res, p) = Pool.deinitialize k.blocks d.pool in (res, record d { pool = p })

-- The write functions check, and are not implemented: the data does not reach a device.
unfoldable pub write_sector : ℕ → List ℕ → Driver → ℕ × Driver
write_sector sector buffer d = if not d.emmc_ctx_initialized then (neg 1, d) else (neg 2, d)

unfoldable pub write_sector_gc : ℕ → List ℕ → Driver → ℕ × Driver
write_sector_gc sector buffer d = if not d.gc_ctx_initialized then (neg 1, d) else (neg 2, d)

unfoldable pub write_sector_ms : ℕ → List ℕ → Driver → ℕ × Driver
write_sector_ms sector buffer d = if not d.ms_ctx_initialized then (neg 1, d) else (neg 2, d)

-- The checks of a write of a cluster, over the flag of its device.
unfoldable pub write_cluster : ℕ → List ℕ → Driver → ℕ × Driver
write_cluster cluster buffer d =
    if not d.emmc_ctx_initialized
    then (neg 1, d)
    else if not d.pool.initialized
    then (neg 2, d)
    else (neg 3, d)

unfoldable pub write_cluster_gc : ℕ → List ℕ → Driver → ℕ × Driver
write_cluster_gc cluster buffer d =
    if not d.gc_ctx_initialized
    then (neg 1, d)
    else if not d.pool.initialized
    then (neg 2, d)
    else (neg 3, d)

unfoldable pub write_cluster_ms : ℕ → List ℕ → Driver → ℕ × Driver
write_cluster_ms cluster buffer d =
    if not d.ms_ctx_initialized
    then (neg 1, d)
    else if not d.pool.initialized
    then (neg 2, d)
    else (neg 3, d)
