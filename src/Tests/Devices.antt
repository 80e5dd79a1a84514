-- ===== src/Tests/Devices.antt =====
-- Examples of the read and write functions of driver/psvemmc.c.
use psvemmc.Base.{ℕ, ◌≡◌, refl, arith, Returns, invalid_access, some, replicate, length-replicate}
use psvemmc.Pool.{Pool}
use psvemmc.Pool.Lifecycle.{IsPool}
use psvemmc.Driver.Correct.{
  emmc, ms, sector_read, cluster_read, SectorRead, ClusterRead, sector_read_lem, cluster_read_lem,
  cluster_read_overflow,
}
use psvemmc.Tests.{
  disk, kernel, driver_with, two_sectors, disk-IsMedium, disk-ReadsFrom, kernel-IsKernel,
  two_sectors-IsPool,
}

sector_read_lem_example :
    Returns
      (sector_read kernel ms 3 (driver_with two_sectors))
      (SectorRead kernel ms disk 3 (driver_with two_sectors))
sector_read_lem_example =
    sector_read_lem kernel ms disk 3 (driver_with two_sectors) kernel-IsKernel disk-IsMedium
      disk-ReadsFrom

cluster_read_lem_example :
    Returns
      (cluster_read kernel emmc 3 (driver_with two_sectors))
      (ClusterRead kernel emmc disk 3 (driver_with two_sectors))
cluster_read_lem_example =
    cluster_read_lem kernel emmc disk 3 (driver_with two_sectors) kernel-IsKernel disk-IsMedium
      disk-ReadsFrom two_sectors-IsPool (λ r. omega arith)

-- 0x800001 sectors of 0x200 bytes make a cluster whose size is 0x200 modulo 2^32.
abbrev huge : Pool
huge = record two_sectors { sectors_per_cluster = 8388609; memory = some (replicate 512 0) }

huge-IsPool : IsPool huge
huge-IsPool = record {
  sized = λ r. length-replicate {A = ℕ} 512 0;
  by_sector = λ r. refl;
  dead = λ r. ground arith;
}

cluster_read_overflow_example : cluster_read kernel emmc 3 (driver_with huge) ≡ invalid_access
cluster_read_overflow_example =
    cluster_read_overflow kernel emmc 3 (driver_with huge) huge-IsPool refl refl (omega arith)
