-- ===== src/Server/Answers.antt =====
-- server/src/main.c: what the handlers of the reads and writes answer to the client.
use psvemmc.Base.{ℕ, ◌⊎◌, ◌≡◌, refl, Returns}
use psvemmc.Driver.{Driver, Reply}
use psvemmc.Driver.Reads.{Medium}
use psvemmc.Driver.Correct.{
  Device, emmc, ms, gc, sector_read, cluster_read, SectorRead, ClusterRead, sector_read_lem,
  cluster_read_lem,
}
use psvemmc.Server.State.{Server, Sys}
use psvemmc.Server.Protocol.{Command}
use psvemmc.Server.Handlers.{handle_read_sector, handle_read_cluster}
use psvemmc.Server.Sectors.{Refuses, SectorSent, handle_read_sector_lem}
use psvemmc.Server.Clusters.{ClusterSent, handle_read_cluster_lem}
use psvemmc.Server.Loop.{handle}
use psvemmc.Server.Session.{IsSys, medium, IsReady, pool_size}
use psvemmc.Server.Safety.{card_of, reads_of, SectorRead-length, ClusterRead-length}

-- The commands of a device.
abbrev pub reading_sector : Device → Command
reading_sector emmc = Command.read_sector
reading_sector ms = Command.read_sector_ms
reading_sector gc = Command.read_sector_gc

abbrev pub reading_cluster : Device → Command
reading_cluster emmc = Command.read_cluster
reading_cluster ms = Command.read_cluster_ms
reading_cluster gc = Command.read_cluster_gc

abbrev pub writing_sector : Device → Command
writing_sector emmc = Command.write_sector
writing_sector ms = Command.write_sector_ms
writing_sector gc = Command.write_sector_gc

abbrev pub writing_cluster : Device → Command
writing_cluster emmc = Command.write_cluster
writing_cluster ms = Command.write_cluster_ms
writing_cluster gc = Command.write_cluster_gc

-- The handler of each of them is the common one, with the driver's function of the device.
pub handle-reading_sector :
    (sys : Sys) (dev : Device)
    → handle sys (reading_sector dev)
      ≡ handle_read_sector sys (reading_sector dev) (sector_read sys.kernel dev)
unfolding handle
handle-reading_sector sys emmc = refl
handle-reading_sector sys ms = refl
handle-reading_sector sys gc = refl

pub handle-reading_cluster :
    (sys : Sys) (dev : Device)
    → handle sys (reading_cluster dev)
      ≡ handle_read_cluster sys (reading_cluster dev) (cluster_read sys.kernel dev)
unfolding handle
handle-reading_cluster sys emmc = refl
handle-reading_cluster sys ms = refl
handle-reading_cluster sys gc = refl

-- What a read of a device may give on the driver's side.
abbrev pub ReadsSector : Sys → (ℕ → Medium) → Medium → Device → Server → ℕ → Reply × Driver → Type 0
ReadsSector sys card stick dev s i =
    SectorRead sys.kernel dev (medium card stick dev s.driver) i s.driver

abbrev pub ReadsCluster :
    Sys → (ℕ → Medium) → Medium → Device → Server → ℕ → Reply × Driver → Type 0
ReadsCluster sys card stick dev s i =
    ClusterRead sys.kernel dev (medium card stick dev s.driver) i s.driver

module _ (sys : Sys) (card : ℕ → Medium) (stick : Medium) (law : IsSys sys card stick) where
  -- The command to read a sector of any of the three devices, in a session whose pool is ready,
  -- returns. If the number of the sector does not come whole, one refusal is sent, and nothing is
  -- read; else the driver is asked for exactly the sector whose number came, and the response of 524
  -- bytes carries the driver's result and the bytes that it gave (those of the sector of the medium
  -- if the result is 0) and is sent in full, or a prefix of it and the handler returns -1. The
  -- sockets, the kernel and the devices are assumed to behave as documented.
  pub reading_sector_lem :
      (dev : Device) (s : Server)
      → IsReady s
      → Returns (handle sys (reading_sector dev) s) (λ out.
        Refuses sys.net s (reading_sector dev) 512 out
        ⊎ SectorSent sys.net s (reading_sector dev) (ReadsSector sys card stick dev s) out)
  reading_sector_lem dev s f = rw (handle-reading_sector sys dev) (
      handle_read_sector_lem sys law.net_law (reading_sector dev) (sector_read sys.kernel dev)
        (ReadsSector sys card stick dev s) s
        (λ i.
          sector_read_lem sys.kernel dev (medium card stick dev s.driver) i s.driver law.kernel_law
            (card_of sys card stick law s f dev) (reads_of sys card stick law s f dev))
        (λ i out.
          SectorRead-length sys.kernel dev (medium card stick dev s.driver) i s.driver out
            (card_of sys card stick law s f dev)))

  -- The command to read a cluster of any of the three devices, in a session whose pool is ready,
  -- returns. If the number does not come whole, one refusal is sent; else the driver reads the cluster
  -- whose number came, its bytes go to the start of the pool, one call of send gets the
  -- header with the driver's result, and behind what it took the whole pool is sent, or all up to a
  -- call that fails and the result is -1. The sockets, the kernel and the devices are assumed to
  -- behave as documented.
  pub reading_cluster_lem :
      (dev : Device) (s : Server)
      → IsReady s
      → Returns (handle sys (reading_cluster dev) s) (λ out.
        Refuses sys.net s (reading_cluster dev) 0 out
        ⊎ ClusterSent sys.net s (reading_cluster dev) (ReadsCluster sys card stick dev s) out)
  reading_cluster_lem dev s f = rw (handle-reading_cluster sys dev) (
      handle_read_cluster_lem sys law.net_law (reading_cluster dev) (cluster_read sys.kernel dev)
        (ReadsCluster sys card stick dev s) s
        (λ i.
          cluster_read_lem sys.kernel dev (medium card stick dev s.driver) i s.driver law.kernel_law
            (card_of sys card stick law s f dev) (reads_of sys card stick law s f dev) f.kernel_pool
            (λ r. rw (f.in_sync r) f.fits))
        (λ i out.
          ClusterRead-length sys.kernel dev (medium card stick dev s.driver) i s out f
            (card_of sys card stick law s f dev))
        (pool_size s f))
