-- ===== src/Client/Commands.antt =====
-- client/psvemmc/psvemmc.cpp: the commands to the server. The functions that differ only in the device
-- are one definition with the code of the command as an argument.
use psvemmc.Base.{
  ℕ, suc, Bool, true, false, List, [], ◌∷◌, ◌++◌, if◌then◌else◌, not, ◌==◌, ◌||◌, ltb, neg, le32,
  drop, overwrite, Exec, pure, gets, ◌>>=◌, ◌>>◌,
}
use psvemmc.Server.Protocol.{Command, code, Response, emmcproxy}
use psvemmc.Server.Wire.{parse}
use psvemmc.Client.State.{Peer, Client, socket_error, give_up, recv, send, recv_all}

-- The tests `resp.base.vita_err < 0` and `resp.base.proxy_err < 0` are on a uint32_t.
abbrev pub below_zero : ℕ → Bool
below_zero w = ltb w 0

-- The test of a response to init, deinit or ping, and that of a response to a read.
abbrev pub is_bad : Command → Response → Bool
is_bad c r = not (r.command == code c) || below_zero r.vita_err || below_zero r.proxy_err

abbrev pub is_bad_read : Command → Response → Bool
is_bad_read c r = not (r.command == code c) || below_zero r.vita_err || not (r.proxy_err == 0)

-- strncmp(a, b, n) == 0
unfoldable pub strncmp_eq : ℕ → List ℕ → List ℕ → Bool
strncmp_eq ℕ.zero xs ys = true
strncmp_eq (suc n) [] ys = false
strncmp_eq (suc n) (x ∷ xs) [] = false
strncmp_eq (suc n) (x ∷ xs) (y ∷ ys) =
    let rest = strncmp_eq n xs ys in if not (x == y) then false else if x == 0 then true else rest

module _ (peer : Peer) where
  -- One send of a request and one recv of its response, which is a local variable; the bytes of the
  -- response, or nothing where a call failed.
  unfoldable pub exchange : List ℕ → ℕ → Exec Client (Bool × List ℕ)
  unfolding send recv
  exchange request size = do
    i_result ← send peer request
    if i_result == socket_error then (do give_up; pure (false, [])) else do
      c ← gets (λ c. c)
      got ← recv peer size
      if got.0 == socket_error
          then (do give_up; pure (false, []))
          else pure (true, overwrite (peer.local_bytes c.clock size) got.1)

  unfoldable pub emmc_ping : Exec Client ℕ
  unfolding exchange strncmp_eq
  emmc_ping = do
    got ← exchange (le32 (code Command.ping)) 22
    if not got.0
        then pure (neg 1)
        else if is_bad Command.ping (parse got.1)
        then give_up
        else if not (strncmp_eq 10 (drop 12 got.1) emmcproxy)
        then pure (neg 1)
        else pure 0

  unfoldable pub emmc_init : ℕ → ℕ → Exec Client ℕ
  unfolding exchange
  emmc_init bytes_per_sector sectors_per_cluster = do
    got ←
        exchange (le32 (code Command.init) ++ (le32 bytes_per_sector ++ le32 sectors_per_cluster))
          12
    if not got.0
        then pure (neg 1)
        else if is_bad Command.init (parse got.1)
        then give_up
        else pure 0

  unfoldable pub emmc_deinit : Exec Client ℕ
  unfolding exchange
  emmc_deinit = do
    got ← exchange (le32 (code Command.deinit)) 12
    if not got.0
        then pure (neg 1)
        else if is_bad Command.deinit (parse got.1)
        then give_up
        else pure 0

  -- emmc_read_sector and its like: the result, and the array that it was to fill.
  unfoldable pub emmc_read_sector_by : Command → ℕ → List ℕ → Exec Client (ℕ × List ℕ)
  unfolding send recv_all
  emmc_read_sector_by command sector result = do
    i_result ← send peer (le32 (code command) ++ le32 sector)
    if i_result == socket_error then (do r ← give_up; pure (r, result)) else do
      c ← gets (λ c. c)
      got ← recv_all peer (peer.local_bytes c.clock 524) 524
      if not got.0
          then pure (neg 1, result)
          else if is_bad_read command (parse got.1)
          then (do r ← give_up; pure (r, result))
          else pure (0, overwrite result (drop 12 got.1))

  -- emmc_read_cluster and its like: the result, and the buffer, which gets the bytes behind the header.
  unfoldable pub emmc_read_cluster_by : Command → ℕ → ℕ → List ℕ → Exec Client (ℕ × List ℕ)
  unfolding exchange recv_all
  emmc_read_cluster_by command cluster expected_size buffer = do
    header ← exchange (le32 (code command) ++ le32 cluster) 12
    if not header.0 then pure (neg 1, buffer) else do
      got ← recv_all peer buffer expected_size
      if not got.0
          then pure (neg 1, got.1)
          else if is_bad_read command (parse header.1)
          then (do r ← give_up; pure (r, got.1))
          else pure (0, got.1)

  unfoldable pub emmc_read_sector : ℕ → List ℕ → Exec Client (ℕ × List ℕ)
  unfolding emmc_read_sector_by
  emmc_read_sector = emmc_read_sector_by Command.read_sector

  unfoldable pub emmc_read_sector_ms : ℕ → List ℕ → Exec Client (ℕ × List ℕ)
  unfolding emmc_read_sector_by
  emmc_read_sector_ms = emmc_read_sector_by Command.read_sector_ms

  unfoldable pub emmc_read_sector_gc : ℕ → List ℕ → Exec Client (ℕ × List ℕ)
  unfolding emmc_read_sector_by
  emmc_read_sector_gc = emmc_read_sector_by Command.read_sector_gc

  unfoldable pub emmc_read_cluster : ℕ → ℕ → List ℕ → Exec Client (ℕ × List ℕ)
  unfolding emmc_read_cluster_by
  emmc_read_cluster = emmc_read_cluster_by Command.read_cluster

  unfoldable pub emmc_read_cluster_ms : ℕ → ℕ → List ℕ → Exec Client (ℕ × List ℕ)
  unfolding emmc_read_cluster_by
  emmc_read_cluster_ms = emmc_read_cluster_by Command.read_cluster_ms

  unfoldable pub emmc_read_cluster_gc : ℕ → ℕ → List ℕ → Exec Client (ℕ × List ℕ)
  unfolding emmc_read_cluster_by
  emmc_read_cluster_gc = emmc_read_cluster_by Command.read_cluster_gc

  -- The modes DUMP_MODE_EMMC, DUMP_MODE_MS and DUMP_MODE_GC are 0, 1 and 2.
  unfoldable pub read_sector : ℕ → ℕ → List ℕ → Exec Client (ℕ × List ℕ)
  unfolding emmc_read_sector emmc_read_sector_ms emmc_read_sector_gc
  read_sector dump_mode sector result =
      if dump_mode == 0
      then emmc_read_sector sector result
      else if dump_mode == 1
      then emmc_read_sector_ms sector result
      else if dump_mode == 2
      then emmc_read_sector_gc sector result
      else pure (neg 1, result)

  unfoldable pub read_cluster : ℕ → ℕ → ℕ → List ℕ → Exec Client (ℕ × List ℕ)
  unfolding emmc_read_cluster emmc_read_cluster_ms emmc_read_cluster_gc
  read_cluster dump_mode cluster expected_size buffer =
      if dump_mode == 0
      then emmc_read_cluster cluster expected_size buffer
      else if dump_mode == 1
      then emmc_read_cluster_ms cluster expected_size buffer
      else if dump_mode == 2
      then emmc_read_cluster_gc cluster expected_size buffer
      else pure (neg 1, buffer)
