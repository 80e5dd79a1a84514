-- ===== src/Tests.antt =====
-- A concrete world for the examples: a client that sends one message again and again, devices with
-- numbered sectors, a kernel that always has memory, and a driver and a server in it.
pub mod Pools
pub mod Devices
pub mod Sessions
pub mod Clients
pub mod Connections
pub mod Logs
pub mod Segments
pub mod Netlogs
pub mod Nodes
pub mod Traces
use psvemmc.Base.{
  le32, ◌≢◌, not_pos, suc, ℕ, ◌*◌, ◌<◌, ◌≤◌, ◌≡◌, refl, inl, inr, true, false, Bool, some, none,
  List, [], if◌then◌else◌, ltb, is_neg, ◌⊎◌, length, take, replicate, overwrite, min, arith,
  Bool-cases, length-take, length-replicate, length-overwrite, word, neg,
}
use psvemmc.Pool.{Pool, MemBlocks, empty_pool, cluster_size}
use psvemmc.Pool.Lifecycle.{IsPool, IsSized, empty_pool-IsPool}
use psvemmc.Driver.{Driver, Kernel, Reader, loaded}
use psvemmc.Driver.Reads.{Medium, sectors, IsMedium, ReadsFrom, IsKernel}
use psvemmc.Server.Protocol
use psvemmc.Server.Loop.{received_command}
use psvemmc.Server.State.{Net, Sys, Server, started}
use psvemmc.Server.Transfer.{IsNet}
use psvemmc.Server.Session.{IsSys, Fit, IsReady}
use psvemmc.Server.Setup.{Idle, IsIdle}

abbrev pub blocks : MemBlocks
blocks = record {
  alloc = λ t n. 5;
  get_base = λ t uid. 0;
  free = λ t uid. 0;
  fresh = λ t n. replicate n 0;
}

-- A kernel without memory.
abbrev pub no_blocks : MemBlocks
no_blocks = record {
  alloc = λ t n. neg 1;
  get_base = λ t uid. 0;
  free = λ t uid. 0;
  fresh = λ t n. replicate n 0;
}

abbrev pub disk : Medium
disk i = replicate 512 i

abbrev pub disk_reader : Reader
disk_reader t i n buffer = (0, overwrite buffer (sectors disk i n))

abbrev pub kernel : Kernel
kernel = record {
  blocks = blocks;
  stack = λ t n. replicate n 7;
  sdif_read = λ ctx. disk_reader;
  msif_read = disk_reader;
  copy_to_user = λ t bytes. (0, length bytes);
  part_mmc = λ t dev. 1;
  part_sd = λ t dev. 1;
  init_part_mmc = λ t dev. (0, 1);
  dev_type = λ t dev. 1;
}

-- Calls before the tenth bring the message or its start, then all clients have gone; a call of `send`
-- takes at most 100 bytes.
abbrev pub net : List ℕ → Net
net message = record {
  recv = λ t sock len. if ltb t 10 then (length (take len message), take len message) else (0, []);
  send = λ t sock bytes. min 100 (length bytes);
  accept = λ t sock. if ltb t 10 then 7 else neg 1;
  not_initialized = λ t. false;
  ctl_init = λ t. 0;
  socket = λ t. 6;
  bind = λ t sock. 0;
  get_info = λ t. 0;
  listen = λ t sock. 0;
  malloc = λ t. true;
  is_loaded = λ t. false;
  load_module = λ t. 0;
}

abbrev pub system : List ℕ → Sys
system message = record {
  kernel = kernel;
  blocks = blocks;
  net = net message;
  local_bytes = λ t n. replicate n 9;
}

-- A pool with clusters of two sectors.
abbrev pub two_sectors : Pool
two_sectors = record {
  bytes_per_sector = 512;
  sectors_per_cluster = 2;
  initialized = true;
  cluster_pool = 5;
  memory = some (replicate 1024 0);
  clock = 2;
}

abbrev pub driver_with : Pool → Driver
driver_with p = record loaded {
  emmc_ctx = 1;
  gc_ctx = 2;
  emmc_ctx_initialized = true;
  ms_ctx_initialized = true;
  pool = p;
}

abbrev pub ready_server : Server
ready_server = record (started (driver_with two_sectors)) { pool = two_sectors; cli_sock = 7 }

abbrev pub idle_server : Server
idle_server = started (driver_with empty_pool)

-- The sizes were set by an init that then found no memory.
abbrev pub dead_server : Server
dead_server = record idle_server {
  pool = record empty_pool { bytes_per_sector = 512; sectors_per_cluster = 2 };
}

pub blocks-IsSized : IsSized blocks
blocks-IsSized t n = length-replicate n 0

pub disk-IsMedium : IsMedium disk
disk-IsMedium = record { sector_size = λ i. length-replicate 512 i }

pub disk-ReadsFrom : ReadsFrom disk_reader disk
disk-ReadsFrom = record {
  read_size = λ t i n buffer. length-overwrite buffer (sectors disk i n);
  read_int = λ t i n buffer. omega arith;
  read_law = λ t i n buffer. inr refl;
}

pub kernel-IsKernel : IsKernel kernel
kernel-IsKernel = record {
  copy_int = λ t bytes. omega arith;
  copy_law = λ t bytes. inr refl;
  stack_size = λ t n. length-replicate n 7;
  block_size = λ t n. length-replicate n 0;
}

-- A call that brings bytes, or nothing.
if-law :
    (len : ℕ) (b : Bool) (message : List ℕ)
    → (let got : ℕ × List ℕ =
          if b then (length (take len message), take len message) else (0, []) in
        (is_neg got.0 ≡ true) ⊎ ((got.0 ≤ len) × (length got.1 ≡ got.0)))
if-law len true message = inr (omega (arith, length-take len message), refl)
if-law len false message = inr (omega arith, refl)

pub net-IsNet : (message : List ℕ) → IsNet (net message)
net-IsNet message = record {
  recv_law = λ t sock len. if-law len (ltb t 10) message;
  send_law = λ t sock bytes. inr (omega arith);
}

pub system-IsSys : (message : List ℕ) → IsSys (system message) (λ ctx. disk) disk
system-IsSys message = record {
  net_law = net-IsNet message;
  kernel_law = kernel-IsKernel;
  blocks_law = blocks-IsSized;
  local_law = λ t n. length-replicate n 9;
  card_medium = λ ctx. disk-IsMedium;
  card_reads = λ ctx. disk-ReadsFrom;
  stick_medium = disk-IsMedium;
  stick_reads = disk-ReadsFrom;
}

pub two_sectors-IsPool : IsPool two_sectors
two_sectors-IsPool = record {
  sized = λ r. length-replicate {A = ℕ} 1024 0;
  by_sector = λ r. refl;
  dead = λ r. ground arith;
}

pub ready_server-IsReady : IsReady ready_server
ready_server-IsReady = record {
  ready = refl;
  user_pool = two_sectors-IsPool;
  kernel_pool = two_sectors-IsPool;
  fits = omega arith;
  in_sync = λ r. refl;
}

pub idle_server-IsIdle : IsIdle idle_server
idle_server-IsIdle = record {
  user_idle = refl;
  kernel_idle = refl;
  user_pool = empty_pool-IsPool;
  kernel_pool = empty_pool-IsPool;
}

pub dead_server-IsIdle : IsIdle dead_server
dead_server-IsIdle = record {
  user_idle = refl;
  kernel_idle = refl;
  user_pool = record { sized = λ r. ground arith; by_sector = λ r. refl; dead = λ r. refl };
  kernel_pool = empty_pool-IsPool;
}

-- The client sends the command to read a cluster and the number 5, which have the same bytes.
abbrev pub five : List ℕ
five = le32 5

-- The commands that arrive are five, and then none.
pub no_deinit : (t sock : ℕ) → received_command ((net five).recv t sock 4).1 ≢ some Protocol.deinit
unfolding received_command
no_deinit t sock = go (ltb t 10)
  where
    go :
        (b : Bool)
        → (let got : ℕ × List ℕ = if b then (length (take 4 five), take 4 five) else (0, []) in
            received_command got.1)
          ≢ some Protocol.deinit
    go true = λ e. ground (arith, e)
    go false = λ e. ground (arith, e)

pub closed : (t sock : ℕ) → 10 ≤ t → not_pos ((net five).recv t sock 4).0 ≡ true
closed t sock h = let e : ltb t 10 ≡ false = ground arith in rw e refl
