-- ===== src/Driver/Correct.antt =====
-- driver/psvemmc.c: the read and write functions of the three devices, on every branch.
use psvemmc.Base.{
  ℕ, ◌*◌, ◌<◌, ◌≤◌, ◌≡◌, ◌⊎◌, inl, inr, refl, ◌∙◌, Bool, true, false, List, [], arith,
  if◌then◌else◌, neg, word, length, lt→leb_false, Exec, Returns, Returns-mono, Returns-unless,
  unless-true, invalid_access, ◌>>=◌,
}
use psvemmc.Pool.{reach}
use psvemmc.Pool.Lifecycle.{IsPool}
use psvemmc.Driver.{
  Driver, Kernel, Reader, Reply, first_sector, sector_from, cluster_from, transfer, read_sector,
  read_sector_gc, read_sector_ms, read_cluster, read_cluster_gc, read_cluster_ms, write_sector,
  write_sector_gc, write_sector_ms, write_cluster, write_cluster_gc, write_cluster_ms,
}
use psvemmc.Driver.Reading.{sector_from-Reads, cluster_from-Reads}
use psvemmc.Driver.Reads.{
  Medium, sectors, IsMedium, ReadsFrom, IsKernel, Reads, sector_call, cluster_call,
}

-- The devices: the internal storage, the memory card and the game card.
pub data Device : Type 0 where
  emmc ms gc : Device

abbrev pub is_open : Device → Driver → Bool
is_open emmc d = d.emmc_ctx_initialized
is_open ms d = d.ms_ctx_initialized
is_open gc d = d.gc_ctx_initialized

abbrev pub reader : Kernel → Device → Driver → Reader
reader k emmc d = k.sdif_read d.emmc_ctx
reader k ms d = k.msif_read
reader k gc d = k.sdif_read d.gc_ctx

abbrev pub sector_read : Kernel → Device → ℕ → Exec Driver Reply
sector_read k emmc = read_sector k
sector_read k ms = read_sector_ms k
sector_read k gc = read_sector_gc k

abbrev pub cluster_read : Kernel → Device → ℕ → Exec Driver Reply
cluster_read k emmc = read_cluster k
cluster_read k ms = read_cluster_ms k
cluster_read k gc = read_cluster_gc k

abbrev pub sector_write : Device → ℕ → List ℕ → Driver → ℕ × Driver
sector_write emmc = write_sector
sector_write ms = write_sector_ms
sector_write gc = write_sector_gc

abbrev pub cluster_write : Device → ℕ → List ℕ → Driver → ℕ × Driver
cluster_write emmc = write_cluster
cluster_write ms = write_cluster_ms
cluster_write gc = write_cluster_gc

-- A device that is not open: the error -1, no bytes, and nothing changes.
abbrev pub Refused : ℕ → Driver → Reply × Driver → Type 0
Refused e d out = out ≡ ((neg e, []), d)

-- What a read of a sector does: without the device's context -1; with it, the sector and 0, or the
-- error of the device or of the copy.
abbrev pub SectorRead : Kernel → Device → Medium → ℕ → Driver → Reply × Driver → Type 0
SectorRead k dev disk sector d out =
    ((is_open dev d ≡ false) × Refused 1 d out)
    ⊎ ((is_open dev d ≡ true)
        × Reads k (sector_call k (reader k dev d) sector d) d (disk sector) out)

-- What a read of a cluster does: also -2 without a pool.
abbrev pub ClusterRead : Kernel → Device → Medium → ℕ → Driver → Reply × Driver → Type 0
ClusterRead k dev disk cluster d out =
    ((is_open dev d ≡ false) × Refused 1 d out)
    ⊎ ((is_open dev d ≡ true) × (d.pool.initialized ≡ false) × Refused 2 d out)
    ⊎ ((is_open dev d ≡ true)
        × (d.pool.initialized ≡ true)
        × Reads k (cluster_call (reader k dev d) cluster d) d
            (sectors disk (first_sector d cluster) d.pool.sectors_per_cluster) out)

-- Each of the functions is its guards, and then the common reading.
sector_guard :
    (k : Kernel) (dev : Device) (sector : ℕ) (d : Driver) (Q : Reply × Driver → Type 0)
    → (is_open dev d ≡ false → Q ((neg 1, []), d))
    → (is_open dev d ≡ true → Returns (sector_from k (reader k dev d) sector d) Q)
    → Returns (sector_read k dev sector d) Q
unfolding read_sector read_sector_ms read_sector_gc
sector_guard k emmc sector d Q shut good = Returns-unless d.emmc_ctx_initialized _ _ Q shut good
sector_guard k ms sector d Q shut good = Returns-unless d.ms_ctx_initialized _ _ Q shut good
sector_guard k gc sector d Q shut good = Returns-unless d.gc_ctx_initialized _ _ Q shut good

cluster_guard :
    (k : Kernel) (dev : Device) (cluster : ℕ) (d : Driver) (Q : Reply × Driver → Type 0)
    → (is_open dev d ≡ false → Q ((neg 1, []), d))
    → (is_open dev d ≡ true → d.pool.initialized ≡ false → Q ((neg 2, []), d))
    → (is_open dev d ≡ true
        → d.pool.initialized ≡ true
        → Returns (cluster_from k (reader k dev d) cluster d) Q)
    → Returns (cluster_read k dev cluster d) Q
unfolding read_cluster read_cluster_ms read_cluster_gc
cluster_guard k emmc cluster d Q shut bare good =
    Returns-unless d.emmc_ctx_initialized _ _ Q shut
      (λ o. Returns-unless d.pool.initialized _ _ Q (bare o) (good o))
cluster_guard k ms cluster d Q shut bare good =
    Returns-unless d.ms_ctx_initialized _ _ Q shut
      (λ o. Returns-unless d.pool.initialized _ _ Q (bare o) (good o))
cluster_guard k gc cluster d Q shut bare good =
    Returns-unless d.gc_ctx_initialized _ _ Q shut
      (λ o. Returns-unless d.pool.initialized _ _ Q (bare o) (good o))

-- Reading a sector from any of the three devices returns, on every branch: -1 and no change if the
-- device is not open; else 0 with exactly the 0x200 bytes of that sector, or the negative error of the
-- device and no bytes, or, where the device succeeded, that of the copy to the user and the bytes that
-- it copied, at most 0x200. The flags, the contexts and
-- the pool's sizes stay. The device is assumed to fail or to deliver the sectors of a medium.
pub sector_read_lem :
    (k : Kernel) (dev : Device) (disk : Medium) (sector : ℕ) (d : Driver)
    → IsKernel k
    → IsMedium disk
    → ReadsFrom (reader k dev d) disk
    → Returns (sector_read k dev sector d) (SectorRead k dev disk sector d)
sector_read_lem k dev disk sector d law m r =
    sector_guard k dev sector d (SectorRead k dev disk sector d) (λ c. inl (c, refl))
      (λ o.
        Returns-mono (sector_from k (reader k dev d) sector d)
          (Reads k (sector_call k (reader k dev d) sector d) d (disk sector))
          (SectorRead k dev disk sector d) (λ out h. inr (o, h))
          (sector_from-Reads k law (reader k dev d) disk sector d m r))

-- Reading a cluster returns, on every branch: -1 if the device is not open, -2 if the pool is not
-- ready, each with no change; else 0 with exactly the bytes of the g_sectorsPerCluster sectors that
-- start at g_sectorsPerCluster * cluster, or the negative error of the device and no bytes, or, where
-- the device succeeded, that of the copy to the user and the bytes that it copied. This needs that a
-- ready pool's cluster is smaller than 2^32 bytes.
pub cluster_read_lem :
    (k : Kernel) (dev : Device) (disk : Medium) (cluster : ℕ) (d : Driver)
    → IsKernel k
    → IsMedium disk
    → ReadsFrom (reader k dev d) disk
    → IsPool d.pool
    → (d.pool.initialized ≡ true → d.pool.sectors_per_cluster * 512 < word)
    → Returns (cluster_read k dev cluster d) (ClusterRead k dev disk cluster d)
cluster_read_lem k dev disk cluster d law m r v fits =
    let n = d.pool.sectors_per_cluster in
    cluster_guard k dev cluster d (ClusterRead k dev disk cluster d) (λ c. inl (c, refl))
      (λ o c. inr (inl (o, c, refl)))
      (λ o ready.
        Returns-mono (cluster_from k (reader k dev d) cluster d)
          (Reads k (cluster_call (reader k dev d) cluster d) d
            (sectors disk (first_sector d cluster) n))
          (ClusterRead k dev disk cluster d) (λ out h. inr (inr (o, ready, h)))
          (cluster_from-Reads k law (reader k dev d) disk cluster d m r v ready (fits ready)))

cluster_from_overflow :
    (k : Kernel) (read : Reader) (cluster : ℕ) (d : Driver)
    → IsPool d.pool
    → d.pool.initialized ≡ true
    → word ≤ d.pool.sectors_per_cluster * 512
    → cluster_from k read cluster d ≡ invalid_access
cluster_from_overflow k read cluster d v ready large =
    let short : length (reach d.pool.memory) < d.pool.sectors_per_cluster * 512 =
      rw (v.sized ready, v.by_sector ready) (omega arith) in
    rw (cluster_from, ◌>>=◌, transfer, lt→leb_false _ _ short)

-- A count of sectors for which the size of a cluster does not fit into 32 bits makes every read of a cluster of an open device write past the end of the pool: the block
-- has the size modulo 2^32, and the device is asked for all of the sectors.
pub cluster_read_overflow :
    (k : Kernel) (dev : Device) (cluster : ℕ) (d : Driver)
    → IsPool d.pool
    → is_open dev d ≡ true
    → d.pool.initialized ≡ true
    → word ≤ d.pool.sectors_per_cluster * 512
    → cluster_read k dev cluster d ≡ invalid_access
unfolding read_cluster read_cluster_ms read_cluster_gc
cluster_read_overflow k emmc cluster d v o ready large =
    unless-true d.emmc_ctx_initialized _ _ o
    ∙ unless-true d.pool.initialized _ _ ready
    ∙ cluster_from_overflow k (reader k emmc d) cluster d v ready large
cluster_read_overflow k ms cluster d v o ready large =
    unless-true d.ms_ctx_initialized _ _ o
    ∙ unless-true d.pool.initialized _ _ ready
    ∙ cluster_from_overflow k (reader k ms d) cluster d v ready large
cluster_read_overflow k gc cluster d v o ready large =
    unless-true d.gc_ctx_initialized _ _ o
    ∙ unless-true d.pool.initialized _ _ ready
    ∙ cluster_from_overflow k (reader k gc d) cluster d v ready large

-- No write is implemented: every write function returns a negative error, -1 first if the device is
-- not open, and leaves the driver as it was, whatever the data.
pub write_fails :
    (dev : Device) (i : ℕ) (bytes : List ℕ) (d : Driver)
    → (sector_write dev i bytes d ≡ ((if is_open dev d then neg 2 else neg 1), d))
      × (cluster_write dev i bytes d
          ≡ ((if is_open dev d then (if d.pool.initialized then neg 3 else neg 2) else neg 1), d))
unfolding write_sector write_sector_ms write_sector_gc write_cluster write_cluster_ms
    write_cluster_gc
write_fails emmc i bytes d = ground arith
write_fails ms i bytes d = ground arith
write_fails gc i bytes d = ground arith
