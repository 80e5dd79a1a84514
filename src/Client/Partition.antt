-- ===== src/Client/Partition.antt =====
-- client/psvemmc/psvemmc.cpp, dump_partition: the whole run.
use psvemmc.Base.{
  ℕ, ◌+◌, ◌*◌, ◌/◌, ◌%◌, ◌<◌, ◌≡◌, refl, ap, subst, ◌∙◌, Option, none, List, [], ◌++◌, arith, add32,
  mul32, word, replicate, length-replicate, Returns, Returns-bind,
}
use psvemmc.Driver.Reads.{Medium, IsMedium, sectors}
use psvemmc.Driver.Correct.{Device}
use psvemmc.Client.State.{Peer, Client, IsPeer}
use psvemmc.Client.Commands.{emmc_init, emmc_deinit}
use psvemmc.Client.Dump.{PartitionEntry, open_file, dump_clusters, dump_sectors, dump_partition}
use psvemmc.Client.Service.{IsServed, dump_mode}
use psvemmc.Client.Image.{
  sectors-add, dump_clusters-Wrote, dump_sectors-Wrote, emmc_init-Served, emmc_deinit-Served,
}

-- The run came to the end of the function, and these bytes are the file; all answers were read, and
-- the socket was not closed.
abbrev pub Dumped : Client → List ℕ → Option ℕ × Client → Type 0
Dumped c bytes out =
    (out.0 ≡ none) × (out.1.file ≡ bytes) × (out.1.incoming ≡ []) × (out.1.closes ≡ c.closes)

module _ (peer : Peer) (law : IsPeer peer) (dev : Device) (disk : Medium) (m : IsMedium disk)
    (h : IsServed peer dev disk) where
  -- For a partition whose first sector and size add up to less than 2^32, where no bytes are left to
  -- be read, with a server that answers each request with the result 0 and the data of a medium, over
  -- a connection that does not fail and moves requests and messages of at most 22 bytes in one piece,
  -- dump_partition comes to its end, and the file holds the clusters of the partition, counted from the first sector
  -- rounded down to a multiple of 8, and behind them the sectors of its last part, at their own
  -- numbers. All answers are read and the socket is not closed.
  pub dump_partition_lem :
      (partition : PartitionEntry) (c : Client)
      → partition.partition_offset + partition.partition_size < word
      → c.incoming ≡ []
      → Returns (dump_partition peer (dump_mode dev) partition c) (
          Dumped c (
            sectors disk (8 * (partition.partition_offset / 8)) (8 * (partition.partition_size / 8))
            ++ sectors disk
                (partition.partition_offset + 8 * (partition.partition_size / 8))
                (partition.partition_size % 8)))
  unfolding dump_partition
  dump_partition_lem partition c w empty =
      Returns-bind (emmc_init peer 512 8) _ c _ _ (emmc_init-Served peer law dev disk m h c empty)
        (λ res c1 (x, (sent1, t1, y1)).
          rw (x, y1)
            (Returns-bind
              (dump_clusters peer (dump_mode dev) (offset / 8) (size / 8) 0 (replicate 4096 0)) _
              (open_file (record c { incoming = []; sent = sent1; clock = t1 })) _ _
              (dump_clusters-Wrote peer law dev disk m h (offset / 8) (size / 8) 0
                (replicate 4096 0)
                (open_file (record c { incoming = []; sent = sent1; clock = t1 })) (omega arith)
                (length-replicate {A = ℕ} 4096 0) refl)
              (λ ok c2 (a, (sent2, t2, y2)).
                rw (a, y2)
                  (Returns-bind
                    (dump_sectors peer (dump_mode dev) tail (size % 8) 0 (peer.local_bytes t2 512))
                    _ (record c { incoming = []; sent = sent2; file = clusters; clock = t2 }) _ _
                    (dump_sectors-Wrote peer law dev disk m h tail (size % 8) 0
                      (peer.local_bytes t2 512)
                      (record c { incoming = []; sent = sent2; file = clusters; clock = t2 })
                      (omega arith) (law.local_law t2 512) refl)
                    (λ all c3 (b, (sent3, t3, y3)).
                      rw (b, y3)
                        (Returns-bind (emmc_deinit peer) _
                          (record c {
                            incoming = [];
                            sent = sent3;
                            file = clusters ++ sectors disk (tail + 0) (size % 8);
                            clock = t3;
                          })
                          _ _
                          (emmc_deinit-Served peer law dev disk m h
                            (record c {
                              incoming = [];
                              sent = sent3;
                              file = clusters ++ sectors disk (tail + 0) (size % 8);
                              clock = t3;
                            })
                            refl)
                          (λ res_2 c4 (d, (sent4, t4, y4)).
                            rw (d, y4) (refl, places, refl, refl))))))))
    where
      offset : ℕ
      offset = partition.partition_offset

      size : ℕ
      size = partition.partition_size

      tail : ℕ
      tail = add32 offset (mul32 (size / 8) 8)

      clusters : List ℕ
      clusters = sectors disk (8 * (offset / 8 + 0)) (8 * (size / 8))

      places :
          clusters ++ sectors disk (tail + 0) (size % 8)
          ≡ sectors disk (8 * (offset / 8)) (8 * (size / 8))
            ++ sectors disk (offset + 8 * (size / 8)) (size % 8)
      places =
          let j : offset / 8 + 0 ≡ offset / 8 = omega arith in
          let k : tail + 0 ≡ offset + 8 * (size / 8) = omega arith in
          ap (λ z. sectors disk (8 * z) (8 * (size / 8)) ++ sectors disk (tail + 0) (size % 8)) j
          ∙ ap (λ z. sectors disk (8 * (offset / 8)) (8 * (size / 8)) ++ sectors disk z (size % 8))
              k

  -- Of a partition whose first sector is a multiple of 8 the file is the image: its sectors in order.
  pub dump_partition_image :
      (partition : PartitionEntry) (c : Client)
      → partition.partition_offset + partition.partition_size < word
      → partition.partition_offset % 8 ≡ 0
      → c.incoming ≡ []
      → Returns
          (dump_partition peer (dump_mode dev) partition c)
          (Dumped c (sectors disk partition.partition_offset partition.partition_size))
  dump_partition_image partition c w start empty =
      subst (λ z. Returns (dump_partition peer (dump_mode dev) partition c) (Dumped c z)) joins
        (dump_partition_lem partition c w empty)
    where
      offset : ℕ
      offset = partition.partition_offset

      size : ℕ
      size = partition.partition_size

      joins :
          sectors disk (8 * (offset / 8)) (8 * (size / 8))
            ++ sectors disk (offset + 8 * (size / 8)) (size % 8)
          ≡ sectors disk offset size
      joins =
          let j : 8 * (offset / 8) ≡ offset = omega arith in
          let k : 8 * (size / 8) + size % 8 ≡ size = omega arith in
          ap
            (λ z.
              sectors disk z (8 * (size / 8)) ++ sectors disk (offset + 8 * (size / 8)) (size % 8))
            j
          ∙ sectors-add disk offset (8 * (size / 8)) (size % 8)
          ∙ ap (λ z. sectors disk offset z) k
