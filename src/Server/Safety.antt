-- ===== src/Server/Safety.antt =====
-- server/src/main.c: what the handlers of reads and writes do to a session whose pool is
-- ready.
use psvemmc.Base.{
  ℕ, ◌≤◌, ◌≡◌, ◌⊎◌, inl, inr, refl, ap, List, [], ◌++◌, arith, neg, length, of_bytes, overwrite,
  take, drop, length-overwrite, Returns, Returns-mono, ◌∙◌, sym,
}
use psvemmc.Driver.{Driver, Kernel, Reply, first_sector}
use psvemmc.Driver.Reads.{
  Medium, IsMedium, ReadsFrom, Replies, Kept, sectors, cluster_bytes, length-sectors,
}
use psvemmc.Driver.Correct.{
  Device, emmc, ms, gc, reader, sector_read, cluster_read, sector_write, cluster_write, SectorRead,
  ClusterRead, sector_read_lem, cluster_read_lem, write_fails,
}
use psvemmc.Server.State.{Server, Sys}
use psvemmc.Server.Receive.{after_recv}
use psvemmc.Server.Protocol.{Command, encode, blank}
use psvemmc.Server.Handlers.{
  handle_read_sector, handle_write_sector, handle_read_cluster, handle_write_cluster,
  set_pool_memory,
}
use psvemmc.Server.Sectors.{
  Refuses, SectorSent, SectorCut, SectorWritten, requested, number, sector_response,
  handle_read_sector_lem, handle_write_sector_lem,
}
use psvemmc.Server.Clusters.{
  ClusterSent, ClusterCut, ClusterWritten, pool_bytes, handle_read_cluster_lem,
  handle_write_cluster_lem,
}
use psvemmc.Server.Session.{
  IsSys, medium, After, IsReady, pool_size, Sent-After, Sends-After, Fit-user, Fit-kernel,
  length-cut,
}

abbrev refusal : Command → ℕ → List ℕ
refusal c size = encode (record (blank c size) { vita_err = neg 1 })

abbrev answer : Command → ℕ → List ℕ
answer c proxy_err = encode (record (blank c 0) { proxy_err = proxy_err })

-- Every branch of a read leaves the driver as `Kept` says.
Refused-Kept : (e : ℕ) (d : Driver) (out : Reply × Driver) → out ≡ ((neg e, []), d) → Kept d out.1
Refused-Kept e d out h = rw h (d.pool.memory, d.clock, refl, refl, λ x. x)

SectorRead-Kept :
    (k : Kernel) (dev : Device) (disk : Medium) (i : ℕ) (d : Driver) (out : Reply × Driver)
    → SectorRead k dev disk i d out
    → Kept d out.1
SectorRead-Kept k dev disk i d out (inl (c, h)) = Refused-Kept 1 d out h
SectorRead-Kept k dev disk i d out (inr (o, h)) = h.1

ClusterRead-Kept :
    (k : Kernel) (dev : Device) (disk : Medium) (i : ℕ) (d : Driver) (out : Reply × Driver)
    → ClusterRead k dev disk i d out
    → Kept d out.1
ClusterRead-Kept k dev disk i d out (inl (c, h)) = Refused-Kept 1 d out h
ClusterRead-Kept k dev disk i d out (inr (inl (o, c, h))) = Refused-Kept 2 d out h
ClusterRead-Kept k dev disk i d out (inr (inr (o, r, h))) = h.1

Replies-length :
    (bytes : List ℕ) (reply : Reply) → Replies bytes reply → length reply.1 ≤ length bytes
Replies-length bytes reply (inl (e, h)) = rw h (omega arith)
Replies-length bytes reply (inr (e, l, h)) = h

Refused-length :
    (e : ℕ) (d : Driver) (out : Reply × Driver) → out ≡ ((neg e, []), d) → length out.0.1 ≤ 0
Refused-length e d out h = rw h (omega arith)

pub SectorRead-length :
    (k : Kernel) (dev : Device) (disk : Medium) (i : ℕ) (d : Driver) (out : Reply × Driver)
    → IsMedium disk
    → SectorRead k dev disk i d out
    → length out.0.1 ≤ 512
SectorRead-length k dev disk i d out m (inl (c, h)) = omega (arith, Refused-length 1 d out h)
SectorRead-length k dev disk i d out m (inr (o, h)) =
    omega (arith, Replies-length (disk i) out.0 h.0, m.sector_size i)

-- A cluster of the driver fits into the pool of the server.
pub ClusterRead-length :
    (k : Kernel) (dev : Device) (disk : Medium) (i : ℕ) (s : Server) (out : Reply × Driver)
    → IsReady s
    → IsMedium disk
    → ClusterRead k dev disk i s.driver out
    → length out.0.1 ≤ length (pool_bytes s)
ClusterRead-length k dev disk i s out f m (inl (c, h)) =
    omega (arith, Refused-length 1 s.driver out h)
ClusterRead-length k dev disk i s out f m (inr (inl (o, c, h))) =
    omega (arith, Refused-length 2 s.driver out h)
ClusterRead-length k dev disk i s out f m (inr (inr (o, r, h))) =
    let n = s.driver.pool.sectors_per_cluster in
    let first = first_sector s.driver i in
    omega (
      arith,
      Replies-length (sectors disk first n) out.0 h.0,
      length-sectors disk m first n,
      f.in_sync r,
      cluster_bytes s.pool f.user_pool f.ready f.fits,
    )

module _ (sys : Sys) (card : ℕ → Medium) (stick : Medium) (law : IsSys sys card stick) (s : Server)
    (f : IsReady s) where
  pub card_of : (dev : Device) → IsMedium (medium card stick dev s.driver)
  card_of emmc = law.card_medium s.driver.emmc_ctx
  card_of ms = law.stick_medium
  card_of gc = law.card_medium s.driver.gc_ctx

  pub reads_of :
      (dev : Device) → ReadsFrom (reader sys.kernel dev s.driver) (medium card stick dev s.driver)
  reads_of emmc = law.card_reads s.driver.emmc_ctx
  reads_of ms = law.stick_reads
  reads_of gc = law.card_reads s.driver.gc_ctx

  pub read_sector_After :
      (dev : Device) (c : Command)
      → Returns (handle_read_sector sys c (sector_read sys.kernel dev) s) (λ out. After s out.1)
  read_sector_After dev c =
      let disk = medium card stick dev s.driver in
      let R : ℕ → Reply × Driver → Type 0 = λ i. SectorRead sys.kernel dev disk i s.driver in
      Returns-mono (handle_read_sector sys c (sector_read sys.kernel dev) s)
        (λ out. Refuses sys.net s c 512 out ⊎ SectorSent sys.net s c R out) (λ out. After s out.1)
        go
        (handle_read_sector_lem sys law.net_law c (sector_read sys.kernel dev) R s
          (λ i.
            sector_read_lem sys.kernel dev disk i s.driver law.kernel_law (card_of dev)
              (reads_of dev))
          (λ i out. SectorRead-length sys.kernel dev disk i s.driver out (card_of dev)))
    where
      go :
          (out : ℕ × Server)
          → Refuses sys.net s c 512 out
            ⊎ SectorSent sys.net s c
                (λ i. SectorRead sys.kernel dev (medium card stick dev s.driver) i s.driver)
                out
          → After s out.1
      go out (inl h) =
          Sent-After sys.net s (requested sys.net s) (refusal c 512) out.1 f (omega arith) h.1.1
      go out (inr (reply, d, e, r, h)) =
          Sends-After sys.net s (record (requested sys.net s) { driver = d })
            (encode (sector_response c reply)) out
            (Fit-kernel s.pool s.driver d
              (SectorRead-Kept sys.kernel dev (medium card stick dev s.driver)
                (of_bytes (number sys.net s).1) s.driver (reply, d) r)
              f)
            (omega arith) h

  pub write_sector_After :
      (dev : Device) (c : Command)
      → Returns (handle_write_sector sys c (sector_write dev) s) (λ out. After s out.1)
  write_sector_After dev c =
      Returns-mono (handle_write_sector sys c (sector_write dev) s)
        (λ out. SectorCut sys.net s c out ⊎ SectorWritten sys.net s c (sector_write dev) out)
        (λ out. After s out.1) go
        (handle_write_sector_lem sys law.net_law c (sector_write dev) s (law.local_law s.clock 516))
    where
      go :
          (out : ℕ × Server)
          → SectorCut sys.net s c out ⊎ SectorWritten sys.net s c (sector_write dev) out
          → After s out.1
      go out (inl (bytes, t, l, late, h)) =
          Sent-After sys.net s (after_recv s bytes t) (refusal c 0) out.1 f late h.1
      go out (inr (bytes, t, l, late, h)) =
          let w = sector_write dev (of_bytes (take 4 bytes)) (drop 4 bytes) s.driver in
          let same : w.1 ≡ s.driver =
            ap (λ x. x.1) (write_fails dev (of_bytes (take 4 bytes)) (drop 4 bytes) s.driver).0 in
          Sent-After sys.net s (record (after_recv s bytes t) { driver = w.1 }) (answer c w.0) out.1
            (rw same f) late h

  pub read_cluster_After :
      (dev : Device) (c : Command)
      → Returns (handle_read_cluster sys c (cluster_read sys.kernel dev) s) (λ out. After s out.1)
  read_cluster_After dev c =
      let disk = medium card stick dev s.driver in
      let R : ℕ → Reply × Driver → Type 0 = λ i. ClusterRead sys.kernel dev disk i s.driver in
      Returns-mono (handle_read_cluster sys c (cluster_read sys.kernel dev) s)
        (λ out. Refuses sys.net s c 0 out ⊎ ClusterSent sys.net s c R out) (λ out. After s out.1) go
        (handle_read_cluster_lem sys law.net_law c (cluster_read sys.kernel dev) R s
          (λ i.
            cluster_read_lem sys.kernel dev disk i s.driver law.kernel_law (card_of dev)
              (reads_of dev) f.kernel_pool (λ r. rw (f.in_sync r) f.fits))
          (λ i out. ClusterRead-length sys.kernel dev disk i s out f (card_of dev)) (pool_size s f))
    where
      go :
          (out : ℕ × Server)
          → Refuses sys.net s c 0 out
            ⊎ ClusterSent sys.net s c
                (λ i. ClusterRead sys.kernel dev (medium card stick dev s.driver) i s.driver)
                out
          → After s out.1
      go out (inl h) =
          Sent-After sys.net s (requested sys.net s) (refusal c 0) out.1 f (omega arith) h.1.1
      go out (inr (reply, d, mid, e, r, h, h')) =
          let filled = overwrite (pool_bytes s) reply.1 in
          let mid_After : After s mid =
            Sent-After sys.net s
              (set_pool_memory filled (record (requested sys.net s) { driver = d }))
              (answer c reply.0) mid
              (Fit-user s.pool d.pool filled (length-overwrite (pool_bytes s) reply.1) (
                Fit-kernel s.pool s.driver d
                  (ClusterRead-Kept sys.kernel dev (medium card stick dev s.driver)
                    (of_bytes (number sys.net s).1) s.driver (reply, d) r)
                  f))
              (omega arith) h in
          Sends-After sys.net s mid filled out mid_After.0 mid_After.1 h'

  pub write_cluster_After :
      (dev : Device) (c : Command)
      → Returns (handle_write_cluster sys c (cluster_write dev) s) (λ out. After s out.1)
  write_cluster_After dev c =
      Returns-mono (handle_write_cluster sys c (cluster_write dev) s)
        (λ out.
          Refuses sys.net s c 0 out
          ⊎ ClusterCut sys.net s c out
          ⊎ ClusterWritten sys.net s c (cluster_write dev) out)
        (λ out. After s out.1) go
        (handle_write_cluster_lem sys law.net_law c (cluster_write dev) s (pool_size s f))
    where
      go :
          (out : ℕ × Server)
          → Refuses sys.net s c 0 out
            ⊎ ClusterCut sys.net s c out
            ⊎ ClusterWritten sys.net s c (cluster_write dev) out
          → After s out.1
      go out (inl h) =
          Sent-After sys.net s (requested sys.net s) (refusal c 0) out.1 f (omega arith) h.1.1
      go out (inr (inl (bytes, t, l, late, h))) =
          let held = bytes ++ drop (length bytes) (pool_bytes s) in
          Sent-After sys.net s (set_pool_memory held (after_recv (requested sys.net s) bytes t))
            (refusal c 0) out.1
            (Fit-user s.pool s.driver.pool held
              (length-cut bytes (pool_bytes s) (omega (arith, pool_size s f))) f)
            (omega arith) h.1
      go out (inr (inr (bytes, t, e, l, late, h))) =
          let i = of_bytes (number sys.net s).1 in
          let w = cluster_write dev i bytes s.driver in
          let same : w.1 ≡ s.driver = ap (λ x. x.1) (write_fails dev i bytes s.driver).1 in
          Sent-After sys.net s
            (record (set_pool_memory bytes (after_recv (requested sys.net s) bytes t)) {
              driver = w.1;
            })
            (answer c w.0) out.1
            (Fit-user s.pool w.1.pool bytes (l ∙ sym (pool_size s f)) (rw same f)) (omega arith) h
