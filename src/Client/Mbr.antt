-- ===== src/Client/Mbr.antt =====
-- client/psvemmc/SceMbr.h, SceMbr.cpp and psvemmc.cpp: the table of partitions in sector 0, the run for one
-- of its entries, and the arguments of the program.
use psvemmc.Base.{
  ℕ, zero, suc, Bool, Option, none, some, List, [], ◌∷◌, if◌then◌else◌, not, ◌==◌, ◌&&◌, leb,
  is_neg, neg, of_bytes, take, drop, get_elem?, Exec, pure, fault, gets, ◌>>=◌, ◌>>◌,
}
use psvemmc.Client.State.{Peer, Client}
use psvemmc.Client.Commands.{emmc_ping, read_sector, strncmp_eq}
use psvemmc.Client.Dump.{PartitionEntry, dump_partition}

-- struct MBR, of which the program uses these members.
pub record Mbr : Type 0 where
  pub header : List ℕ
  pub version : ℕ
  pub partitions : List PartitionEntry
  pub signature : ℕ

-- SCEHeader
abbrev pub sce_header : List ℕ
sce_header =
    b'S' ∷ b'o' ∷ b'n' ∷ b'y' ∷ b' ' ∷ b'C' ∷ b'o' ∷ b'm' ∷ b'p' ∷ b'u' ∷ b't' ∷ b'e' ∷ b'r' ∷ b' '
    ∷ b'E' ∷ b'n' ∷ b't' ∷ b'e' ∷ b'r' ∷ b't' ∷ b'a' ∷ b'i' ∷ b'n' ∷ b'm' ∷ b'e' ∷ b'n' ∷ b't'
    ∷ b' ' ∷ b'I' ∷ b'n' ∷ b'c' ∷ b'.' ∷ []

-- NPartitions
abbrev pub n_partitions : ℕ
n_partitions = 20

-- The 17 packed bytes of an entry, of which 11 are used.
unfoldable pub partition_entry : List ℕ → PartitionEntry
partition_entry bytes = record {
  partition_offset = of_bytes (take 4 bytes);
  partition_size = of_bytes (take 4 (drop 4 bytes));
  partition_code = of_bytes (take 1 (drop 8 bytes));
  partition_type = of_bytes (take 1 (drop 9 bytes));
}

unfoldable pub partition_entries : ℕ → List ℕ → List PartitionEntry
unfolding partition_entry
partition_entries zero bytes = []
partition_entries (suc n) bytes = partition_entry bytes ∷ partition_entries n (drop 17 bytes)

-- memcpy(&mbr, mbrSector.data(), mbrSector.size()), with the packed layout of the struct.
unfoldable pub sce_mbr : List ℕ → Mbr
unfolding partition_entries
sce_mbr bytes = record {
  header = take 32 bytes;
  version = of_bytes (take 4 (drop 32 bytes));
  partitions = partition_entries n_partitions (drop 80 bytes);
  signature = of_bytes (take 2 (drop 510 bytes));
}

-- empty_t
abbrev pub is_empty : PartitionEntry → Bool
is_empty partition = partition.partition_type == 0

unfoldable pub validate_sce_mbr : Mbr → ℕ
unfolding strncmp_eq
validate_sce_mbr mbr =
    if not (strncmp_eq 32 mbr.header sce_header)
    then neg 1
    else if not (mbr.version == 3)
    then neg 1
    else if not (mbr.signature == 43605)
    then neg 1
    else 0

-- The result and the bytes of the MBR afterwards; none where the function ends without a return. The
-- partitions that it prints are not modelled.
module _ (peer : Peer) where
  unfoldable pub parse_sce_mbr : ℕ → List ℕ → Exec Client (Option ℕ × List ℕ)
  parse_sce_mbr mode mbr = do
    c ← gets (λ c. c)
    got ← read_sector peer mode 0 (peer.local_bytes c.clock 512)
    if is_neg got.0
        then pure (some (neg 1), mbr)
        else if is_neg (validate_sce_mbr (sce_mbr got.1))
        then pure (some (neg 1), got.1)
        else pure (none, got.1)

  -- An index that is not one of the table reads memory outside of it.
  unfoldable pub dump_device : ℕ → ℕ → Exec Client ℕ
  dump_device mode dump_partition_index = do
    res ← emmc_ping peer
    if is_neg res then pure (neg 1) else do
      c ← gets (λ c. c)
      got ← parse_sce_mbr mode (peer.local_bytes c.clock 512)
      elim (get_elem? (sce_mbr got.1).partitions dump_partition_index) [
        | none ↦ fault
        | some partition ↦
            if is_empty partition
            then pure (neg 1)
            else do dump_partition peer mode partition; pure 0
      ]

-- The test `x >= n` on an int.
abbrev pub at_least : ℕ → ℕ → Bool
at_least n x = not (is_neg x) && leb n x

-- The tests of the arguments at the end of parseArgs.
unfoldable pub test_args : ℕ → ℕ → ℕ
test_args dump_mode dump_partition_index =
    if at_least 3 dump_mode
    then neg 1
    else if at_least n_partitions dump_partition_index
    then neg 1
    else 0

-- boost::lexical_cast throws where a string is no number. A path is the string of its argument.
module _ (lexical_cast : List ℕ → Option ℕ) where
  -- The result with the mode, the index and the path, or none where an exception leaves the function.
  unfoldable pub parse_args : List (List ℕ) → Option (ℕ × ℕ × ℕ × List ℕ)
  unfolding test_args
  parse_args (program ∷ mode ∷ index ∷ path ∷ others) = elim (lexical_cast mode) [
    | none ↦ none
    | some dump_mode ↦ elim (lexical_cast index) [
      | none ↦ none
      | some dump_partition_index ↦
          some (test_args dump_mode dump_partition_index, dump_mode, dump_partition_index, path)
    ]
  ]
  parse_args argv = some (neg 1, 0, 0, [])
