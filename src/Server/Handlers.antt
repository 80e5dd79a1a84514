-- ===== src/Server/Handlers.antt =====
-- server/src/main.c: handle_command_0 to handle_command_15. A handler has received the code of the
-- command already; its result is what the C function returns.
use psvemmc.Base.{
  ℕ, List, if◌then◌else◌, not, ◌==◌, neg, of_bytes, take, drop, replicate, Exec, done, pure, gets,
  modify, copy_into, ◌>>=◌, ◌>>◌,
}
use psvemmc.Pool
use psvemmc.Pool.{cluster_size, reach, replace}
use psvemmc.Driver
use psvemmc.Driver.{Driver, Reply}
use psvemmc.Server.State.{Sys, Server, recv, send, send_all, recv_all, in_driver}
use psvemmc.Server.Protocol.{Command, encode, blank, int_size, emmcproxy}

-- The function of the driver behind a read, by the number of the sector or cluster.
abbrev pub Read : Type 0
Read = ℕ → Exec Driver Reply

-- And behind a write.
abbrev pub Write : Type 0
Write = ℕ → List ℕ → Driver → ℕ × Driver

abbrev pub set_pool_memory : List ℕ → Server → Server
set_pool_memory bytes s = record s {
  pool = record (s.pool) { memory = replace s.pool.memory bytes };
}

abbrev pool_bytes : Server → List ℕ
pool_bytes s = reach s.pool.memory

module _ (sys : Sys) where
  -- The request could not be received: the response says so, and the handler returns -1.
  abbrev pub refuse : Command → ℕ → Exec Server ℕ
  refuse c size = do
    send sys.net (encode (record (blank c size) { vita_err = neg 1 }))
    pure (neg 1)

  abbrev pub greet : Command → Exec Server ℕ
  greet c = send sys.net (encode (record (blank c 10) { content = emmcproxy }))

  unfoldable pub handle_command_0 : Exec Server ℕ
  unfolding send
  handle_command_0 = greet Command.ping

  unfoldable pub handle_command_1 : Exec Server ℕ
  unfolding send
  handle_command_1 = greet Command.term

  unfoldable pub initialize_pool : ℕ → ℕ → Exec Server ℕ
  initialize_pool b c s =
      let (res, p) = Pool.initialize sys.blocks b c s.pool in done (res, record s { pool = p })

  unfoldable pub deinitialize_pool : Exec Server ℕ
  deinitialize_pool s =
      let (res, p) = Pool.deinitialize sys.blocks s.pool in done (res, record s { pool = p })

  -- The request of handle_command_2 has come.
  abbrev pub execute_init : ℕ → ℕ → Exec Server ℕ
  execute_init b c = do
    vita_err ← initialize_pool b c
    if not (vita_err == 0)
        then send sys.net (encode (record (blank Command.init 0) { vita_err = vita_err }))
        else do
          proxy_err ← in_driver (λ d. done (Driver.psvemmc_initialize sys.kernel b c d))
          send sys.net (encode (record (blank Command.init 0) { proxy_err = proxy_err }))

  -- The command is not for this state of the pool.
  abbrev pub reject : Command → Exec Server ℕ
  reject c = do send sys.net (encode (record (blank c 0) { vita_err = neg 2 })); pure (neg 2)

  abbrev pub receive_init : Exec Server ℕ
  receive_init = do
    got ← recv sys.net 8
    if not (got.0 == 8)
        then refuse Command.init 0
        else execute_init (of_bytes (take 4 got.1)) (of_bytes (take 4 (drop 4 got.1)))

  unfoldable pub handle_command_2 : Exec Server ℕ
  unfolding recv send initialize_pool
  handle_command_2 s = if s.pool.initialized then reject Command.init s else receive_init s

  abbrev pub execute_deinit : Exec Server ℕ
  execute_deinit = do
    proxy_err ← in_driver (λ d. done (Driver.psvemmc_deinitialize sys.kernel d))
    vita_err ← deinitialize_pool
    send sys.net
        (encode (record (blank Command.deinit 0) { vita_err = vita_err; proxy_err = proxy_err }))

  unfoldable pub handle_command_3 : Exec Server ℕ
  unfolding send deinitialize_pool
  handle_command_3 s = if not s.pool.initialized then reject Command.deinit s else execute_deinit s

  -- handle_command_4, 8 and 12: the sector is read into the data of the response.
  unfoldable pub handle_read_sector : Command → Read → Exec Server ℕ
  unfolding recv send send_all
  handle_read_sector c read = do
    got ← recv sys.net int_size
    if not (got.0 == int_size) then refuse c 512 else do
      reply ← in_driver (read (of_bytes got.1))
      content ← copy_into (replicate 512 0) reply.1
      send_all sys.net (encode (record (blank c 512) { proxy_err = reply.0; content = content }))
          524

  -- handle_command_5, 9 and 13: the cluster is read into the pool, and sent behind the header.
  unfoldable pub handle_read_cluster : Command → Read → Exec Server ℕ
  unfolding recv send send_all
  handle_read_cluster c read = do
    got ← recv sys.net int_size
    if not (got.0 == int_size) then refuse c 0 else do
      reply ← in_driver (read (of_bytes got.1))
      s ← gets (λ s. s)
      filled ← copy_into (pool_bytes s) reply.1
      modify (set_pool_memory filled)
      send sys.net (encode (record (blank c 0) { proxy_err = reply.0 }))
      send_all sys.net filled (cluster_size s.pool)

  -- handle_command_6, 10 and 14: the sector and its 0x200 bytes come into a local request.
  unfoldable pub handle_write_sector : Command → Write → Exec Server ℕ
  unfolding recv send recv_all
  handle_write_sector c write = do
    s ← gets (λ s. s)
    got ← recv_all sys.net (sys.local_bytes s.clock 516) 516
    if not got.0 then refuse c 0 else do
      proxy_err ← in_driver (λ d. done (write (of_bytes (take 4 got.1)) (drop 4 got.1) d))
      send sys.net (encode (record (blank c 0) { proxy_err = proxy_err }))

  -- handle_command_7, 11 and 15: the data comes into the pool.
  unfoldable pub handle_write_cluster : Command → Write → Exec Server ℕ
  unfolding recv send recv_all
  handle_write_cluster c write = do
    got ← recv sys.net int_size
    if not (got.0 == int_size) then refuse c 0 else do
      s ← gets (λ s. s)
      rest ← recv_all sys.net (pool_bytes s) (cluster_size s.pool)
      modify (set_pool_memory rest.1)
      if not rest.0 then refuse c 0 else do
        proxy_err ← in_driver (λ d. done (write (of_bytes got.1) rest.1 d))
        send sys.net (encode (record (blank c 0) { proxy_err = proxy_err }))

  unfoldable pub handle_command_4 : Exec Server ℕ
  unfolding handle_read_sector
  handle_command_4 = handle_read_sector Command.read_sector (Driver.read_sector sys.kernel)

  unfoldable pub handle_command_5 : Exec Server ℕ
  unfolding handle_read_cluster
  handle_command_5 = handle_read_cluster Command.read_cluster (Driver.read_cluster sys.kernel)

  unfoldable pub handle_command_6 : Exec Server ℕ
  unfolding handle_write_sector
  handle_command_6 = handle_write_sector Command.write_sector Driver.write_sector

  unfoldable pub handle_command_7 : Exec Server ℕ
  unfolding handle_write_cluster
  handle_command_7 = handle_write_cluster Command.write_cluster Driver.write_cluster

  unfoldable pub handle_command_8 : Exec Server ℕ
  unfolding handle_read_sector
  handle_command_8 = handle_read_sector Command.read_sector_ms (Driver.read_sector_ms sys.kernel)

  unfoldable pub handle_command_9 : Exec Server ℕ
  unfolding handle_read_cluster
  handle_command_9 = handle_read_cluster Command.read_cluster_ms (Driver.read_cluster_ms sys.kernel)

  unfoldable pub handle_command_10 : Exec Server ℕ
  unfolding handle_write_sector
  handle_command_10 = handle_write_sector Command.write_sector_ms Driver.write_sector_ms

  unfoldable pub handle_command_11 : Exec Server ℕ
  unfolding handle_write_cluster
  handle_command_11 = handle_write_cluster Command.write_cluster_ms Driver.write_cluster_ms

  unfoldable pub handle_command_12 : Exec Server ℕ
  unfolding handle_read_sector
  handle_command_12 = handle_read_sector Command.read_sector_gc (Driver.read_sector_gc sys.kernel)

  unfoldable pub handle_command_13 : Exec Server ℕ
  unfolding handle_read_cluster
  handle_command_13 =
      handle_read_cluster Command.read_cluster_gc (Driver.read_cluster_gc sys.kernel)

  unfoldable pub handle_command_14 : Exec Server ℕ
  unfolding handle_write_sector
  handle_command_14 = handle_write_sector Command.write_sector_gc Driver.write_sector_gc

  unfoldable pub handle_command_15 : Exec Server ℕ
  unfolding handle_write_cluster
  handle_command_15 = handle_write_cluster Command.write_cluster_gc Driver.write_cluster_gc
