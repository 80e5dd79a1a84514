-- ===== src/Client/Dump.antt =====
-- client/psvemmc/psvemmc.cpp, dump_partition: the clusters and the sectors behind them go to a file.
use psvemmc.Base.{
  ℕ, zero, suc, ◌*◌, ◌/◌, ◌%◌, Bool, true, false, Option, none, some, List, [], ◌++◌, if◌then◌else◌,
  not, is_neg, neg, add32, mul32, replicate, Exec, pure, gets, modify, ◌>>=◌, ◌>>◌,
}
use psvemmc.Client.State.{Peer, Client}
use psvemmc.Client.Commands.{emmc_init, emmc_deinit, read_sector, read_cluster}

-- An entry of the table of partitions.
pub record PartitionEntry : Type 0 where
  pub partition_offset : ℕ
  pub partition_size : ℕ
  pub partition_code : ℕ
  pub partition_type : ℕ

abbrev pub sd_sector_size : ℕ
sd_sector_size = 512

abbrev pub sectors_per_cluster : ℕ
sectors_per_cluster = 8

-- outputFile.write
abbrev pub write_file : List ℕ → Client → Client
write_file bytes c = record c { file = c.file ++ bytes }

-- outputFile, opened with ios::trunc
abbrev pub open_file : Client → Client
open_file c = record c { file = [] }

module _ (peer : Peer) where
  -- The loop over the clusters, of which `n` are left from the i-th on; whether all were read.
  unfoldable pub dump_clusters : ℕ → ℕ → ℕ → ℕ → List ℕ → Exec Client Bool
  unfolding read_cluster
  dump_clusters mode offset zero i cluster_data = pure true
  dump_clusters mode offset (suc n) i cluster_data =
      let rest : List ℕ → Exec Client Bool = dump_clusters mode offset n (suc i) in
      do
        got ←
            read_cluster peer mode (add32 offset i) (sd_sector_size * sectors_per_cluster)
              cluster_data
        if is_neg got.0 then pure false else do modify (write_file got.1); rest got.1

  unfoldable pub dump_sectors : ℕ → ℕ → ℕ → ℕ → List ℕ → Exec Client Bool
  unfolding read_sector
  dump_sectors mode offset zero i sector_data = pure true
  dump_sectors mode offset (suc n) i sector_data =
      let rest : List ℕ → Exec Client Bool = dump_sectors mode offset n (suc i) in
      do
        got ← read_sector peer mode (add32 offset i) sector_data
        if is_neg got.0 then pure false else do modify (write_file got.1); rest got.1

  -- A result is none where the function ends without a return.
  unfoldable pub dump_partition : ℕ → PartitionEntry → Exec Client (Option ℕ)
  unfolding emmc_init emmc_deinit dump_clusters dump_sectors
  dump_partition mode partition = do
    res ← emmc_init peer sd_sector_size sectors_per_cluster
    if is_neg res then pure (some (neg 1)) else do
      let n_clusters = partition.partition_size / sectors_per_cluster
      let n_sectors = partition.partition_size % sectors_per_cluster
      let cluster_offset = partition.partition_offset / sectors_per_cluster
      let tail_offset = add32 partition.partition_offset (mul32 n_clusters sectors_per_cluster)
      modify open_file
      clusters ←
          dump_clusters mode cluster_offset n_clusters 0
            (replicate (sd_sector_size * sectors_per_cluster) 0)
      if not clusters then pure (some (neg 1)) else do
        c ← gets (λ c. c)
        all ← dump_sectors mode tail_offset n_sectors 0 (peer.local_bytes c.clock sd_sector_size)
        if not all then pure (some (neg 1)) else do
          res_2 ← emmc_deinit peer
          if is_neg res_2 then pure (some (neg 1)) else pure none
