-- ===== src/Tests/Sessions.antt =====
-- Examples of the server of server/src/main.c.
use psvemmc.Base.{
  ℕ, ◌+◌, ◌≡◌, ◌<◌, ◌⊎◌, refl, List, [], ◌∷◌, ◌++◌, arith, length, take, le32, neg, replicate,
  Returns, invalid_access,
}
use psvemmc.Driver.Correct.{ms, gc}
use psvemmc.Driver.{write_cluster}
use psvemmc.Server.State.{send_all, recv_all}
use psvemmc.Server.Protocol
use psvemmc.Server.Protocol.{Response, code, decode, encode}
use psvemmc.Server.Handlers.{Write, handle_command_2, handle_command_3, handle_write_cluster}
use psvemmc.Server.Transfer.{Sends, send_all_lem}
use psvemmc.Server.Receive.{Receives, recv_all_lem}
use psvemmc.Server.Sectors.{Refuses, SectorSent}
use psvemmc.Server.Clusters.{ClusterSent}
use psvemmc.Server.Session.{After, IsReady}
use psvemmc.Server.Setup.{IsIdle, handle_command_2_lem}
use psvemmc.Server.Teardown.{Deinitialized, handle_command_3_lem, dead_cluster_write}
use psvemmc.Server.Loop.{handle, receive_commands}
use psvemmc.Server.Ready.{handle_ready, receive_commands-IsReady}
use psvemmc.Server.Wire.{parse, parse-encode}
use psvemmc.Server.Answers.{
  reading_sector, reading_cluster, ReadsSector, ReadsCluster, reading_sector_lem,
  reading_cluster_lem,
}
use psvemmc.Tests.{
  disk, five, closed, no_deinit, net, system, ready_server, idle_server, dead_server, net-IsNet,
  system-IsSys, blocks-IsSized, ready_server-IsReady, idle_server-IsIdle, dead_server-IsIdle,
}

-- The client asks for a pool with 512 bytes to a sector and two sectors to a cluster.
abbrev two : List ℕ
two = le32 512 ++ le32 2

send_all_lem_example :
    Returns
      (send_all (net five) (replicate 1024 3) 1024 ready_server)
      (Sends (net five) ready_server (take 1024 (replicate 1024 3)))
send_all_lem_example =
    send_all_lem (net five) (replicate 1024 3) 1024 ready_server (net-IsNet five) (omega arith)
      (omega arith)

recv_all_lem_example :
    Returns
      (recv_all (net five) (replicate 16 9) 16 ready_server)
      (Receives (net five) ready_server (replicate 16 9) 16 0)
recv_all_lem_example =
    recv_all_lem (net five) (replicate 16 9) 16 ready_server (net-IsNet five) (omega arith)
      (omega arith)

handle_ready_example :
    Returns
      (handle (system five) Protocol.read_cluster_gc ready_server)
      (λ out. After ready_server out.1)
handle_ready_example =
    handle_ready (system five) (λ ctx. disk) disk Protocol.read_cluster_gc ready_server
      (system-IsSys five) ready_server-IsReady (λ e. ground (arith, e))

receive_commands-IsReady_example :
    Returns
      (receive_commands (system five) 11 ready_server)
      (λ out. IsReady out.1 × (0 < out.1.clock))
receive_commands-IsReady_example =
    receive_commands-IsReady (system five) (λ ctx. disk) disk 10 11 ready_server (system-IsSys five)
      ready_server-IsReady closed (λ u at. no_deinit u.clock u.cli_sock) (omega arith)

reading_sector_lem_example : Returns (handle (system five) (reading_sector ms) ready_server) (λ out.
    Refuses (net five) ready_server (reading_sector ms) 512 out
    ⊎ SectorSent
        (net five)
        ready_server
        (reading_sector ms)
        (ReadsSector (system five) (λ ctx. disk) disk ms ready_server)
        out)
reading_sector_lem_example =
    reading_sector_lem (system five) (λ ctx. disk) disk (system-IsSys five) ms ready_server
      ready_server-IsReady

reading_cluster_lem_example :
    Returns (handle (system five) (reading_cluster gc) ready_server) (λ out.
      Refuses (net five) ready_server (reading_cluster gc) 0 out
      ⊎ ClusterSent
          (net five)
          ready_server
          (reading_cluster gc)
          (ReadsCluster (system five) (λ ctx. disk) disk gc ready_server)
          out)
reading_cluster_lem_example =
    reading_cluster_lem (system five) (λ ctx. disk) disk (system-IsSys five) gc ready_server
      ready_server-IsReady

-- A driver that would keep the number and the length of the data.
abbrev write_test : Write
write_test i bytes d = (i + length bytes, d)

handle_command_2_lem_example :
    Returns (handle_command_2 (system two) idle_server) (λ out. IsReady out.1 ⊎ IsIdle out.1)
handle_command_2_lem_example =
    handle_command_2_lem (system two) blocks-IsSized blocks-IsSized idle_server idle_server-IsIdle
      (omega arith)

handle_command_3_lem_example :
    Returns
      (handle_command_3 (system five) ready_server)
      (λ out. Deinitialized (system five) ready_server out.1)
handle_command_3_lem_example =
    handle_command_3_lem (system five) ready_server ready_server-IsReady (λ r. refl)

dead_cluster_write_example :
    handle_write_cluster (system five) Protocol.write_cluster write_cluster dead_server
    ≡ invalid_access
dead_cluster_write_example =
    dead_cluster_write (system five) dead_server Protocol.write_cluster write_cluster
      dead_server-IsIdle (omega arith) refl

-- The response to an init that found a ready pool, with a byte of data.
abbrev response : Response
response = record { command = 2; vita_err = neg 2; proxy_err = 0; content = 9 ∷ [] }

parse-encode_example : (parse (encode response) ≡ response) × (length (encode response) ≡ 13)
parse-encode_example = parse-encode response (omega arith) (omega arith) (omega arith)
