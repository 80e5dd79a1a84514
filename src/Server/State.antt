-- ===== src/Server/State.antt =====
-- server/src/main.c: the globals of the server, one call of a socket, and the loops that send or
-- receive a whole buffer. The sockets are the parameter `Net`: the n-th call may answer anything.
use psvemmc.Base.{
  ℕ, zero, suc, Bool, true, false, List, [], ◌++◌, if◌then◌else◌, ◌==◌, is_neg, not_pos, neg, add32,
  sub32, take, overwrite_at, Exec, Outcome, done, invalid_access, out_of_fuel, pure, starve, slice,
  ◌>>=◌, ◌>>◌,
}
use psvemmc.Pool.{MemBlocks, Pool, empty_pool}
use psvemmc.Driver.{Driver, Kernel}

-- The calls into SceNet, by the number of the call: what `recv` returns and delivers for a socket
-- and a length, what `send` returns for a socket and the bytes, and the results of the others.
pub record Net : Type 0 where
  pub recv : ℕ → ℕ → ℕ → ℕ × List ℕ
  pub send : ℕ → ℕ → List ℕ → ℕ
  pub accept : ℕ → ℕ → ℕ
  -- sceNetShowNetstat() == SCE_NET_ERROR_ENOTINIT
  pub not_initialized : ℕ → Bool
  -- sceNetCtlInit, sceNetSocket, sceNetBind, sceNetCtlInetGetInfo and sceNetListen
  pub ctl_init : ℕ → ℕ
  pub socket : ℕ → ℕ
  pub bind : ℕ → ℕ → ℕ
  pub get_info : ℕ → ℕ
  pub listen : ℕ → ℕ → ℕ
  -- Whether malloc has memory, sceSysmoduleIsLoaded(...) == SCE_SYSMODULE_LOADED, and
  -- sceSysmoduleLoadModule.
  pub malloc : ℕ → Bool
  pub is_loaded : ℕ → Bool
  pub load_module : ℕ → ℕ

-- All that the server calls and this repository does not implement; `local_bytes` is what a local
-- variable of a size holds before it is written.
pub record Sys : Type 0 where
  pub kernel : Kernel
  pub blocks : MemBlocks
  pub net : Net
  pub local_bytes : ℕ → ℕ → List ℕ

-- `sent` and `received` are what the client's sockets took and delivered so far, in order, and `closed`
-- the sockets that sceNetSocketClose was called with; the driver's globals stand beside the server's,
-- since its functions are called here. `net_memory` tells whether the pointer is not null.
pub record Server : Type 0 where
  pub emmc_sock : ℕ
  pub cli_sock : ℕ
  pub net_memory : Bool
  pub pool : Pool
  pub driver : Driver
  pub sent : List ℕ
  pub received : List ℕ
  pub closed : List ℕ
  pub clock : ℕ

abbrev pub started : Driver → Server
started d = record {
  emmc_sock = 0;
  cli_sock = 0;
  net_memory = false;
  pool = empty_pool;
  driver = d;
  sent = [];
  received = [];
  closed = [];
  clock = 0;
}

abbrev pub tick : Server → Server
tick s = record s { clock = suc s.clock }

-- The bytes that a call of `send` with this result took.
abbrev pub accepted : ℕ → List ℕ → List ℕ
accepted r bytes = if is_neg r then [] else take r bytes

-- The bytes that a call of `recv` delivered.
abbrev pub delivered : ℕ × List ℕ → List ℕ
delivered got = if is_neg got.0 then [] else got.1

-- A function of the driver, run on the driver's globals.
abbrev pub run_driver : {A : Type 0} → Outcome (A × Driver) → Server → Outcome (A × Server)
run_driver (done (a, d)) s = done (a, record s { driver = d })
run_driver invalid_access s = invalid_access
run_driver out_of_fuel s = out_of_fuel

abbrev pub in_driver : {A : Type 0} → Exec Driver A → Exec Server A
in_driver m s = run_driver (m s.driver) s

module _ (net : Net) where
  unfoldable pub recv : ℕ → Exec Server (ℕ × List ℕ)
  recv len s =
      let got = net.recv s.clock s.cli_sock len in
      done (got, record (tick s) { received = s.received ++ delivered got })

  unfoldable pub send : List ℕ → Exec Server ℕ
  send bytes s =
      let res = net.send s.clock s.cli_sock bytes in
      done (res, record (tick s) { sent = s.sent ++ accepted res bytes })

  -- while(bytesWereSend != bytesToSend): the result of the handler.
  unfoldable pub send_loop : ℕ → List ℕ → ℕ → ℕ → Exec Server ℕ
  unfolding send
  send_loop zero buffer bytes_to_send bytes_were_send = starve
  send_loop (suc fuel) buffer bytes_to_send bytes_were_send =
      let rest : ℕ → Exec Server ℕ =
        λ send_len. send_loop fuel buffer bytes_to_send (add32 bytes_were_send send_len) in
      if bytes_were_send == bytes_to_send then pure 0 else do
        chunk ← slice bytes_were_send (sub32 bytes_to_send bytes_were_send) buffer
        send_len ← send chunk
        if not_pos send_len then pure (neg 1) else rest send_len

  -- while(bytesToReceive != bytesWereReceived): whether all came, and the buffer.
  unfoldable pub recv_loop : ℕ → List ℕ → ℕ → ℕ → Exec Server (Bool × List ℕ)
  unfolding recv
  recv_loop zero buffer bytes_to_receive bytes_were_received = starve
  recv_loop (suc fuel) buffer bytes_to_receive bytes_were_received =
      let rest : ℕ → List ℕ → Exec Server (Bool × List ℕ) = λ recv_len filled.
        recv_loop fuel filled bytes_to_receive (add32 bytes_were_received recv_len) in
      if bytes_to_receive == bytes_were_received then pure (true, buffer) else do
        slice bytes_were_received (sub32 bytes_to_receive bytes_were_received) buffer
        got ← recv (sub32 bytes_to_receive bytes_were_received)
        if not_pos got.0
            then pure (false, buffer)
            else rest got.0 (overwrite_at bytes_were_received buffer got.1)

  -- The loops with the fuel that they need: a round moves at least one byte.
  unfoldable pub send_all : List ℕ → ℕ → Exec Server ℕ
  unfolding send_loop
  send_all buffer bytes_to_send = send_loop (suc bytes_to_send) buffer bytes_to_send 0

  unfoldable pub recv_all : List ℕ → ℕ → Exec Server (Bool × List ℕ)
  unfolding recv_loop
  recv_all buffer bytes_to_receive = recv_loop (suc bytes_to_receive) buffer bytes_to_receive 0
