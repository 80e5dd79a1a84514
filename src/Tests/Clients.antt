-- ===== src/Tests/Clients.antt =====
-- Examples of the client of client/psvemmc.
use psvemmc.Base.{
  ℕ, ◌+◌, ◌-◌, ◌*◌, ◌%◌, ◌/◌, ◌≡◌, inl, inr, refl, ap, Bool, true, false, Option, none, some, List,
  [], ◌∷◌, ◌++◌, arith, if◌then◌else◌, ◌==◌, leb, length, take, drop, min, replicate,
  length-replicate, le32, of_bytes, of_bytes-le32, neg, get_elem?, Outcome, done, invalid_access,
  Returns,
}
use psvemmc.Driver.{read_sector_ms}
use psvemmc.Driver.Reads.{Medium, IsMedium, sectors}
use psvemmc.Driver.Correct.{emmc, ms, gc}
use psvemmc.Server.Protocol
use psvemmc.Server.Protocol.{Command, code, encode, blank}
use psvemmc.Server.State.{Server}
use psvemmc.Server.Answers.{reading_sector}
use psvemmc.Server.Loop.{handle}
use psvemmc.Client.State.{Peer, Client, IsPeer, socket_error, answers}
use psvemmc.Client.Commands.{emmc_read_sector_by, emmc_read_cluster_by}
use psvemmc.Client.Receive.{Failure}
use psvemmc.Client.Reads.{SectorGot, ClusterGot, emmc_read_sector_by_lem, emmc_read_cluster_by_lem}
use psvemmc.Client.Dump.{PartitionEntry, dump_partition}
use psvemmc.Client.Mbr.{sce_header, sce_mbr, test_args, parse_args, dump_device}
use psvemmc.Client.Service.{IsServed, sector_answer, cluster_answer, ping_answer}
use psvemmc.Client.Partition.{Dumped, dump_partition_lem}
use psvemmc.Client.Device.{DeviceDumped, dump_device_lem}
use psvemmc.Client.Link.{EndToEnd, emmc_read_sector_by-handle}
use psvemmc.Client.Refusals.{refusal, emmc_read_sector_by-refusal}
use psvemmc.Client.Connect.{Winsock, Sockets, Process, initialize_emmc_proxy_connection, main}
use psvemmc.Client.Closing.{Initialized, initialize_emmc_proxy_connection_lem}
use psvemmc.Client.Program.{ProgramRan, main_lem}
use psvemmc.Client.Outside.{dump_device_outside}
use psvemmc.Tests.{five, disk, system, ready_server, system-IsSys, ready_server-IsReady}

-- A connection on which a call moves at most 100 bytes, with what the server sends for a request.
abbrev peer_of : (List ℕ → List ℕ) → Peer
peer_of answer = record {
  recv = λ t len there. min 100 (min len there);
  send = λ t bytes. min 100 (length bytes);
  respond = λ t bytes. answer bytes;
  local_bytes = λ t n. replicate n 9;
}

peer_of-IsPeer : (answer : List ℕ → List ℕ) → IsPeer (peer_of answer)
peer_of-IsPeer answer = record {
  recv_law = λ t len there. inr (omega arith, omega arith);
  progress = λ t len there p q. omega arith;
  local_law = λ t n. length-replicate n 9;
}

peer_of-never_fails : (answer : List ℕ → List ℕ) → Failure (peer_of answer) → ⊥
peer_of-never_fails answer (inl (t, len, there, e)) = omega (arith, e)
peer_of-never_fails answer (inr (t, bytes, e)) = omega (arith, e)

abbrev client : Client
client = record { incoming = []; sent = []; file = []; closes = 0; clock = 0 }

-- A table with an empty entry and one of nine sectors from the eighth on.
abbrev mbr_sector : List ℕ
mbr_sector =
    sce_header
    ++ (le32 3
        ++ (replicate 44 0
            ++ (replicate 17 0
                ++ (le32 8
                    ++ (le32 9
                        ++ (3 ∷ 7 ∷ []
                            ++ (replicate 7 0 ++ (replicate 396 0 ++ (85 ∷ 170 ∷ [])))))))))

abbrev partition : PartitionEntry
partition = record {
  partition_offset = 8;
  partition_size = 9;
  partition_code = 3;
  partition_type = 7;
}

abbrev storage : Medium
storage i = if i == 0 then mbr_sector else replicate 512 i

storage-IsMedium : IsMedium storage
storage-IsMedium = record { sector_size = λ i. size (i == 0) i }
  where
    size : (b : Bool) (i : ℕ) → length (if b then mbr_sector else replicate {A = ℕ} 512 i) ≡ 512
    size true i = refl
    size false i = length-replicate 512 i

abbrev answer_of : List ℕ → List ℕ
answer_of bytes =
    let n = of_bytes (take 4 bytes) in
    let i = of_bytes (drop 4 bytes) in
    if n == 0
    then ping_answer
    else if n == 2
    then encode (blank Protocol.init 0)
    else if n == 3
    then encode (blank Protocol.deinit 0)
    else if n == 4
    then sector_answer emmc storage i
    else cluster_answer emmc storage i

answers-IsServed : IsServed (peer_of answer_of) emmc storage
answers-IsServed = record {
  receives = λ t len there e. omega (arith, e);
  whole = λ t len there p q. omega arith;
  accepts = λ t bytes e. omega (arith, e);
  sends = λ t bytes p. omega arith;
  ping_served = λ t. refl;
  init_served = λ t. refl;
  deinit_served = λ t. refl;
  cluster_served = λ t i w. ap (cluster_answer emmc storage) (of_bytes-le32 i w);
  sector_served = λ t i w. ap (sector_answer emmc storage) (of_bytes-le32 i w);
}

dump_partition_lem_example : Returns (dump_partition (peer_of answer_of) 0 partition client) (
    Dumped client
      (sectors storage (8 * (8 / 8)) (8 * (9 / 8)) ++ sectors storage (8 + 8 * (9 / 8)) (9 % 8)))
dump_partition_lem_example =
    dump_partition_lem (peer_of answer_of) (peer_of-IsPeer answer_of) emmc storage storage-IsMedium
      answers-IsServed partition client (omega arith) refl

storage-entry : get_elem? (sce_mbr (storage 0)).partitions 1 ≡ some partition
unfolding sce_mbr
storage-entry = refl

dump_device_lem_example :
    Returns (dump_device (peer_of answer_of) 0 1 client) (DeviceDumped storage partition client)
dump_device_lem_example =
    dump_device_lem (peer_of answer_of) (peer_of-IsPeer answer_of) emmc storage storage-IsMedium
      answers-IsServed 1 partition client storage-entry (omega arith) refl refl

dump_device_outside_example :
    (test_args 0 (neg 1) ≡ 0) × (dump_device (peer_of answer_of) 0 (neg 1) client ≡ invalid_access)
dump_device_outside_example =
    dump_device_outside (peer_of answer_of) emmc storage (neg 1) client (peer_of-IsPeer answer_of)
      storage-IsMedium answers-IsServed refl refl

-- The first of two addresses does not answer.
abbrev wsa : Winsock
wsa = record {
  wsa_startup = 0;
  getaddrinfo = 0;
  addresses = 2;
  socket = λ i. i + 5;
  connect = λ i. if i == 0 then socket_error else 0;
  shutdown = λ sock. 0;
}

abbrev sockets : Sockets
sockets = record { opened = []; closed = []; startups = 0; cleanups = 0; lists = 0; freed = 0 }

abbrev program : Process
program = record { client = client; sockets = sockets }

initialize_emmc_proxy_connection_lem_example :
    Returns (initialize_emmc_proxy_connection wsa sockets) (Initialized sockets)
initialize_emmc_proxy_connection_lem_example = initialize_emmc_proxy_connection_lem wsa sockets

-- A number of one digit.
abbrev lexical_cast : List ℕ → Option ℕ
lexical_cast [] = none
lexical_cast (digit ∷ digits) = if leb 48 digit then some (digit - 48) else none

abbrev argv : List (List ℕ)
argv = (b'p' ∷ []) ∷ (b'0' ∷ []) ∷ (b'1' ∷ []) ∷ (b'f' ∷ []) ∷ []

argv-parse : parse_args lexical_cast argv ≡ some (0, 0, 1, b'f' ∷ [])
unfolding parse_args
argv-parse = refl

main_lem_example :
    Returns
      (main wsa (peer_of answer_of) lexical_cast argv program)
      (ProgramRan storage partition program)
main_lem_example =
    main_lem wsa (peer_of answer_of) lexical_cast emmc storage argv (b'f' ∷ []) 1 partition program
      (peer_of-IsPeer answer_of) storage-IsMedium answers-IsServed argv-parse storage-entry
      (omega arith) refl refl

storage-header : length (sce_mbr mbr_sector).header ≡ 32
unfolding sce_mbr
storage-header = refl

-- A server that has gone.
emmc_read_sector_by_lem_example :
    Returns
      (emmc_read_sector_by (peer_of answer_of) Protocol.read_sector 8 (replicate 512 0) client)
      (SectorGot
        (peer_of answer_of)
        Protocol.read_sector
        (replicate 512 0)
        (answers (peer_of answer_of) client (le32 4 ++ le32 8))
        client)
emmc_read_sector_by_lem_example =
    emmc_read_sector_by_lem (peer_of answer_of) (peer_of-IsPeer answer_of) Protocol.read_sector 8
      (replicate 512 0) client refl (omega arith)

emmc_read_cluster_by_lem_example :
    Returns
      (emmc_read_cluster_by
        (peer_of answer_of)
        Protocol.read_cluster
        1
        512
        (replicate 512 0)
        client)
      (ClusterGot
        (peer_of answer_of)
        Protocol.read_cluster
        512
        (answers (peer_of answer_of) client (le32 5 ++ le32 1))
        client)
emmc_read_cluster_by_lem_example =
    emmc_read_cluster_by_lem (peer_of answer_of) (peer_of-IsPeer answer_of) Protocol.read_cluster 1
      512 (replicate 512 0) client (omega arith) refl (omega arith)

-- A server that refuses, whatever it gets.
abbrev refusing : List ℕ → List ℕ
refusing bytes = encode (refusal Protocol.read_sector_gc (neg 1))

emmc_read_sector_by-refusal_example :
    Returns
      (emmc_read_sector_by (peer_of refusing) Protocol.read_sector_gc 3 (replicate 512 7) client)
      (λ out. out.0 ≡ (0, replicate 512 0))
emmc_read_sector_by-refusal_example =
    emmc_read_sector_by-refusal (peer_of refusing) gc 3 (neg 1) (replicate 512 7) client
      (peer_of-IsPeer refusing) (peer_of-never_fails refusing) (omega arith) refl refl

-- The server of the other examples, which reads sector 5 of a memory card for the client.
abbrev state_of : Outcome (ℕ × Server) → Server
state_of (done (res, s)) = s
state_of Outcome.invalid_access = ready_server
state_of Outcome.out_of_fuel = ready_server

abbrev reading : List ℕ → List ℕ
reading bytes = sector_answer ms disk 5

answered : Server
unfolding handle
answered = state_of (handle (system five) (reading_sector ms) ready_server)

answered-run : handle (system five) (reading_sector ms) ready_server ≡ done (0, answered)
unfolding handle answered read_sector_ms
answered-run = refl

answered-sent : answered.sent ≡ ready_server.sent ++ sector_answer ms disk 5
unfolding handle answered read_sector_ms
answered-sent = refl

emmc_read_sector_by-handle_example :
    Returns (emmc_read_sector_by (peer_of reading) (reading_sector ms) 5 (replicate 512 7) client) (
      EndToEnd
        (system five)
        (λ ctx. disk)
        disk
        ms
        ready_server
        (peer_of reading)
        5
        (replicate 512 7)
        client)
emmc_read_sector_by-handle_example =
    emmc_read_sector_by-handle (system five) (λ ctx. disk) disk (system-IsSys five)
      (peer_of reading) ms ready_server answered 5 (replicate 512 7) client (peer_of-IsPeer reading)
      ready_server-IsReady (omega arith) refl refl answered-run answered-sent
