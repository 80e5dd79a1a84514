-- ===== src/Client/State.antt =====
-- client/psvemmc/psvemmc.cpp: one call of a socket, and the loop that receives a whole buffer. The
-- sockets are the parameter `Peer`: the n-th call may fail, or bring or take any part of the bytes.
use psvemmc.Base.{
  ℕ, zero, suc, ◌≤◌, ◌<◌, ◌≡◌, ◌⊎◌, Bool, true, false, List, ◌++◌, if◌then◌else◌, ◌==◌, neg, add32,
  sub32, take, drop, length, overwrite_at, Exec, done, pure, starve, slice, ◌>>=◌, ◌>>◌,
}

-- recv gets the number of the call, the length of the buffer and how many bytes have come and were
-- not read; send the number of the call and the bytes, and `respond` are the bytes that the server
-- sends because of those that a call of send took. `local_bytes` is what a local variable of a
-- size holds before it is written.
pub record Peer : Type 0 where
  pub recv : ℕ → ℕ → ℕ → ℕ
  pub send : ℕ → List ℕ → ℕ
  pub respond : ℕ → List ℕ → List ℕ
  pub local_bytes : ℕ → ℕ → List ℕ

-- `incoming` are the bytes of the server that the client has not read, `sent` those that its socket
-- took, `file` the file that is written, and `closes` how often closesocket and WSACleanup were called.
pub record Client : Type 0 where
  pub incoming : List ℕ
  pub sent : List ℕ
  pub file : List ℕ
  pub closes : ℕ
  pub clock : ℕ

-- SOCKET_ERROR
abbrev pub socket_error : ℕ
socket_error = neg 1

-- A recv fails, or brings bytes that are there, and none only where none are there.
pub record IsPeer (peer : Peer) : Type 0 where
  pub recv_law :
      (t len there : ℕ)
      → (peer.recv t len there ≡ socket_error)
        ⊎ ((peer.recv t len there ≤ len) × (peer.recv t len there ≤ there))
  pub progress : (t len there : ℕ) → 0 < len → 0 < there → 0 < peer.recv t len there
  pub local_law : (t n : ℕ) → length (peer.local_bytes t n) ≡ n

-- How many bytes a call with this result moved.
abbrev pub moved : ℕ → ℕ
moved r = if r == socket_error then 0 else r

-- closesocket(socket); WSACleanup(); return -1;
abbrev pub give_up : Exec Client ℕ
give_up c = done (neg 1, record c { closes = suc c.closes })

module _ (peer : Peer) where
  unfoldable pub recv : ℕ → Exec Client (ℕ × List ℕ)
  recv len c =
      let r = peer.recv c.clock len (length c.incoming) in
      done (
        (r, take (moved r) c.incoming),
        record c { clock = suc c.clock; incoming = drop (moved r) c.incoming },
      )

  unfoldable pub send : List ℕ → Exec Client ℕ
  send bytes c =
      let r = peer.send c.clock bytes in
      let took = take (moved r) bytes in
      done (
        r,
        record c {
          clock = suc c.clock;
          sent = c.sent ++ took;
          incoming = c.incoming ++ peer.respond c.clock took;
        },
      )

  -- What the client can read once it has sent a request.
  abbrev pub answers : Client → List ℕ → List ℕ
  answers c request =
      c.incoming ++ peer.respond c.clock (take (moved (peer.send c.clock request)) request)

  -- while(bytesToReceive != bytesWereReceived): whether all came, and the buffer.
  unfoldable pub recv_loop : ℕ → List ℕ → ℕ → ℕ → Exec Client (Bool × List ℕ)
  unfolding recv
  recv_loop zero buffer bytes_to_receive bytes_were_received = starve
  recv_loop (suc fuel) buffer bytes_to_receive bytes_were_received =
      let rest : ℕ → List ℕ → Exec Client (Bool × List ℕ) = λ i_result filled.
        recv_loop fuel filled bytes_to_receive (add32 bytes_were_received i_result) in
      if bytes_to_receive == bytes_were_received then pure (true, buffer) else do
        slice bytes_were_received (sub32 bytes_to_receive bytes_were_received) buffer
        got ← recv (sub32 bytes_to_receive bytes_were_received)
        if got.0 == socket_error
            then (do give_up; pure (false, buffer))
            else rest got.0 (overwrite_at bytes_were_received buffer got.1)

  -- The loop with the fuel that it needs while the connection is open.
  unfoldable pub recv_all : List ℕ → ℕ → Exec Client (Bool × List ℕ)
  unfolding recv_loop
  recv_all buffer bytes_to_receive = recv_loop (suc bytes_to_receive) buffer bytes_to_receive 0
