-- ===== src/Client/Device.antt =====
-- client/psvemmc/psvemmc.cpp, dump_device: the run for an entry of the table of partitions.
use psvemmc.Base.{
  ℕ, ◌+◌, ◌%◌, ◌<◌, ◌≡◌, ◌≢◌, ◌⊎◌, inl, inr, refl, Bool, true, false, Option, none, some, List, [],
  arith, if◌then◌else◌, is_neg, neg, word, le32, get_elem?, ==→eq, ==→ne, Returns, Returns-bind,
  branch-Returns, pure,
}
use psvemmc.Driver.Reads.{Medium, IsMedium, sectors}
use psvemmc.Driver.Correct.{Device}
use psvemmc.Server.Protocol.{Command, code}
use psvemmc.Client.State.{Peer, Client, IsPeer}
use psvemmc.Client.Commands.{emmc_ping, exchange, read_sector}
use psvemmc.Client.Dump.{PartitionEntry, dump_partition}
use psvemmc.Client.Mbr.{sce_mbr, is_empty, validate_sce_mbr, parse_sce_mbr, dump_device}
use psvemmc.Client.Service.{IsServed, Served, dump_mode, ping_answer}
use psvemmc.Client.Served.{read_sector-Served}
use psvemmc.Client.Image.{small_exchange}
use psvemmc.Client.Partition.{dump_partition_image}

-- What the run for an entry leaves: nothing for an entry that is empty, and else the image.
abbrev pub DeviceDumped : Medium → PartitionEntry → Client → ℕ × Client → Type 0
DeviceDumped disk partition c out =
    (out.1.incoming ≡ [])
    × (out.1.closes ≡ c.closes)
    × (((partition.partition_type ≡ 0) × (out.0 ≡ neg 1) × (out.1.file ≡ c.file))
        ⊎ ((partition.partition_type ≢ 0)
            × (out.0 ≡ 0)
            × (out.1.file ≡ sectors disk partition.partition_offset partition.partition_size)))

module _ (peer : Peer) (law : IsPeer peer) (dev : Device) (disk : Medium) (m : IsMedium disk)
    (h : IsServed peer dev disk) where
  pub emmc_ping-Served :
      (c : Client)
      → c.incoming ≡ []
      → Returns (emmc_ping peer c) (λ out. (out.0 ≡ 0) × Served c out.1)
  unfolding emmc_ping
  emmc_ping-Served c empty =
      Returns-bind (exchange peer (le32 (code Command.ping)) 22) _ c _ _
        (small_exchange peer law dev disk m h 22 (le32 (code Command.ping)) ping_answer c
          (omega arith) (omega arith) refl empty h.ping_served)
        (λ got c' (x, y). rw x (refl, y))

  -- The result is that of the tests, and the MBR is sector 0 whatever they say.
  pub parse_sce_mbr-Served :
      (mbr : List ℕ) (c : Client)
      → c.incoming ≡ []
      → Returns (parse_sce_mbr peer (dump_mode dev) mbr c) (λ out.
        (out.0
          ≡ (if is_neg (validate_sce_mbr (sce_mbr (disk 0))) then some (neg 1) else none, disk 0))
        × Served c out.1)
  unfolding parse_sce_mbr
  parse_sce_mbr-Served mbr c empty =
      Returns-bind (read_sector peer (dump_mode dev) 0 (peer.local_bytes c.clock 512)) _ c _ _
        (read_sector-Served peer law dev disk m h 0 (peer.local_bytes c.clock 512) c (omega arith)
          (law.local_law c.clock 512) empty)
        (λ got c' (x, y). rw x (tested (is_neg (validate_sce_mbr (sce_mbr (disk 0)))) c' y))
    where
      tested :
          (b : Bool) (c' : Client)
          → Served c c'
          → Returns
              ((if b
                  then pure {A = Option ℕ × List ℕ} (some (neg 1), disk 0)
                  else pure {A = Option ℕ × List ℕ} (none, disk 0))
                c')
              (λ out. (out.0 ≡ (if b then some (neg 1) else none, disk 0)) × Served c out.1)
      tested true c' y = (refl, y)
      tested false c' y = (refl, y)

  -- With a server that answers, over a connection that does not fail and brings short messages
  -- in one piece, dump_device returns for each index of an entry of the table in sector 0 whose
  -- first sector is a multiple of 8: for an entry of type 0 with -1 and without a change of the
  -- file, else with 0, and the file is exactly the sectors of the partition in order, whether or
  -- not the table passes the tests of its header. The sector behind the partition has a number
  -- below 2^32.
  pub dump_device_lem :
      (index : ℕ) (partition : PartitionEntry) (c : Client)
      → get_elem? (sce_mbr (disk 0)).partitions index ≡ some partition
      → partition.partition_offset + partition.partition_size < word
      → partition.partition_offset % 8 ≡ 0
      → c.incoming ≡ []
      → Returns (dump_device peer (dump_mode dev) index c) (DeviceDumped disk partition c)
  unfolding dump_device
  dump_device_lem index partition c found w start empty =
      Returns-bind (emmc_ping peer) _ c _ _ (emmc_ping-Served c empty)
        (λ res c1 (x, (sent1, t1, y1)).
          rw (x, y1)
            (Returns-bind (parse_sce_mbr peer (dump_mode dev) (peer.local_bytes t1 512)) _
              (record c { incoming = []; sent = sent1; clock = t1 }) _ _
              (parse_sce_mbr-Served (peer.local_bytes t1 512)
                (record c { incoming = []; sent = sent1; clock = t1 }) refl)
              (λ got c2 (z, (sent2, t2, y2)).
                rw (z, y2, found)
                  (branch-Returns (is_empty partition) _ _
                    (record c { incoming = []; sent = sent2; clock = t2 })
                    (DeviceDumped disk partition c)
                    (λ e. (refl, refl, inl (==→eq partition.partition_type 0 e, refl, refl)))
                    (λ e.
                      Returns-bind (dump_partition peer (dump_mode dev) partition) _
                        (record c { incoming = []; sent = sent2; clock = t2 }) _ _
                        (dump_partition_image peer law dev disk m h partition
                          (record c { incoming = []; sent = sent2; clock = t2 }) w start refl)
                        (λ r c3 (a, b, i, k).
                          (i, k, inr (==→ne partition.partition_type 0 e, refl, b))))))))
