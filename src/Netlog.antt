-- ===== src/Netlog.antt =====
-- driver/net.c: the log over the network. A thread of the driver listens for one debug client, and any
-- thread of the kernel sends it messages, each in a frame of MSG_SIZE bytes. This file has the globals,
-- the calls into the kernel, and the messages; Netlog/Listener has the thread that listens and
-- Netlog/Lifecycle init_net and deinit_net. ENABLE_NETWORK_REPORT_SEND_FAILURE is not defined.
pub mod Texts
pub mod Listener
pub mod Lifecycle
pub mod Frames
pub mod Delivery
pub mod Streams
pub mod Pinged
pub mod Connected
pub mod Sockets
pub mod Released
use psvemmc.Base.{
  ℕ, zero, suc, ◌-◌, Bool, not, ◌&&◌, List, [], ◌∷◌, ◌++◌, if◌then◌else◌, ◌==◌, ltb, is_neg, neg,
  add32, sub32, take, overwrite, replicate, Exec, pure, fault, starve, slice, copy_into, gets,
  modify, ◌>>=◌, ◌>>◌,
}
use psvemmc.Log.{Io, Log}
use psvemmc.Log.Lines.{Arg, int, str, Printf, global_line}
use psvemmc.Netlog.Texts.{ping_text}

-- The address of a client that was accepted: its four bytes, and the port as it stands in memory.
pub record Peer : Type 0 where
  pub ap_0 : ℕ
  pub ap_1 : ℕ
  pub ap_2 : ℕ
  pub ap_3 : ℕ
  pub port : ℕ

-- A message as send_message_to_client gets it: the memory from `msg` on, and `size`.
pub record Message : Type 0 where
  pub bytes : List ℕ
  pub size : ℕ

-- The calls into the kernel, by the number of the call. `meanwhile` has the messages that other threads
-- send while the listening thread is delayed.
pub record Kernel : Type 0 where
  pub lock : ℕ → ℕ → ℕ
  pub send : ℕ → ℕ → List ℕ → ℕ
  pub accept : ℕ → ℕ → ℕ × Peer
  pub socket : ℕ → ℕ
  pub bind : ℕ → ℕ → ℕ
  pub listen : ℕ → ℕ → ℕ
  pub close : ℕ → ℕ → ℕ
  pub create_mutex : ℕ → ℕ
  pub delete_mutex : ℕ → ℕ → ℕ
  pub create_thread : ℕ → ℕ
  pub delete_thread : ℕ → ℕ → ℕ
  pub meanwhile : ℕ → List Message
  pub io : Io
  pub snprintf : Printf

-- `held` tells how often the thread that runs holds the mutex, `sent` has what client sockets took, in order,
-- `closed` the sockets that ksceNetSocketClose was called with.
pub record Link : Type 0 where
  pub thread_id : ℕ
  pub mutex_id : ℕ
  pub conn_initialized : ℕ
  pub server_sock : ℕ
  pub client_sock : ℕ
  pub message_buffer : List ℕ
  pub log : Log
  pub held : ℕ
  pub sent : List ℕ
  pub closed : List ℕ
  pub clock : ℕ

abbrev pub msg_size : ℕ
msg_size = 256

abbrev pub zeros : ℕ → List ℕ
zeros n = replicate n 0

abbrev pub tick : Link → Link
tick s = record s { clock = suc s.clock }

unfoldable pub lock_listen_mutex : Kernel → Link → Link
lock_listen_mutex k s = record s {
  held = if is_neg (k.lock s.clock s.mutex_id) then s.held else suc s.held;
  clock = suc s.clock;
}

unfoldable pub unlock_listen_mutex : Link → Link
unlock_listen_mutex s = record s { held = s.held - 1 }

-- The bytes that a socket took in a call of ksceNetSend.
abbrev pub taken : ℕ → List ℕ → List ℕ
taken r bytes = if is_neg r then [] else take r bytes

-- ksceNetSend of some bytes on a socket.
abbrev pub net_send : Kernel → List ℕ → Exec Link ℕ
net_send k bytes s =
    let r = k.send s.clock s.client_sock bytes in
    pure r (record s { sent = s.sent ++ taken r bytes; clock = suc s.clock })

-- The loop of send_message, with `n` of the bytes sent.
unfoldable pub send_loop : Kernel → ℕ → ℕ → Exec Link ℕ
send_loop k zero n s = starve s
send_loop k (suc fuel) n s =
    let rest = send_loop k fuel in
    let next = slice n (sub32 msg_size n) s.message_buffer >>= λ bytes.
    net_send k bytes >>= λ r. if is_neg r then pure 0 else rest (add32 n r) in
    if n == msg_size then pure 0 s else next s

-- size > MSG_SIZE, of a signed size
abbrev pub too_long : ℕ → Bool
too_long size = not (is_neg size) && ltb msg_size size

abbrev pub set_message_buffer : List ℕ → Exec Link (Unit {0})
set_message_buffer bytes = modify (λ s. record s { message_buffer = bytes })

unfoldable pub send_message : Kernel → ℕ → Message → Exec Link ℕ
unfolding send_loop
send_message k fuel msg =
    if too_long msg.size
    then pure 0
    else (set_message_buffer (zeros msg_size) >> slice 0 msg.size msg.bytes >>= λ bytes.
        copy_into (zeros msg_size) bytes >>= λ buffer.
        set_message_buffer buffer >> send_loop k fuel 0)

-- Closes the client's socket, if there is one.
unfoldable pub close_client_sock : Kernel → Link → Link
unfolding global_line
close_client_sock k s =
    let close = λ (x : Link).
      (let x1 = record x {
        log =
            if is_neg (k.close x.clock x.client_sock)
            then global_line k.io Texts.close_client_failed x.log
            else x.log;
        closed = x.closed ++ (x.client_sock ∷ []);
        clock = suc x.clock;
      } in
        record x1 { client_sock = 0 }) in
    let s1 = (if s.client_sock == 0 then s else close s) in
    record s1 { log = global_line k.io Texts.client_closed s1.log }

-- What send_message_to_client does while it holds the mutex: a result of send_message below 0 ends the
-- connection.
unfoldable pub send_connected : Kernel → ℕ → Message → Exec Link (Unit {0})
unfolding send_message close_client_sock
send_connected k fuel msg = send_message k fuel msg >>= λ res.
    modify (λ s. if is_neg res then close_client_sock k (record s { conn_initialized = 0 }) else s)

unfoldable pub send_message_to_client : Kernel → ℕ → Message → Exec Link ℕ
unfolding lock_listen_mutex unlock_listen_mutex send_connected
send_message_to_client k fuel msg =
    if too_long msg.size
    then pure (neg 1)
    else (modify (lock_listen_mutex k) >> gets (λ s. s.conn_initialized) >>= λ c.
        (if c == 1 then send_connected k fuel msg else pure tt)
        >> modify unlock_listen_mutex
        >> pure 0)

-- The buffer of ping_debug_client: the text, which snprintf ends with a 0, and zeros.
abbrev pub ping : Message
ping = record { bytes = overwrite (zeros 100) (ping_text ++ (0 ∷ [])); size = 100 }

unfoldable pub ping_debug_client : Kernel → ℕ → Exec Link (Unit {0})
unfolding send_message_to_client
ping_debug_client k fuel = send_message_to_client k fuel ping >> pure tt
