-- ===== src/Netlog/Listener.antt =====
-- driver/net.c: the thread that listens for the debug client.
use psvemmc.Base.{
  ℕ, zero, suc, ◌+◌, ◌*◌, ◌/◌, ◌%◌, List, [], ◌∷◌, if◌then◌else◌, ◌==◌, leb, is_neg, neg, length,
  Option, none, some, Exec, pure, starve, gets, modify, ◌>>=◌, ◌>>◌,
}
use psvemmc.Log.Lines.{Arg, int, str, Printf, global_line}
use psvemmc.Netlog.{
  Kernel, Link, Message, Peer, tick, lock_listen_mutex, unlock_listen_mutex, send_message_to_client,
  ping_debug_client,
}
use psvemmc.Netlog.Texts

-- The number that a pair of bytes holds, with its bytes exchanged.
unfoldable pub ntohs : ℕ → ℕ
ntohs net16 = (net16 * 256 + net16 / 256) % 65536

-- The text of an address, if it is shorter than `len`.
unfoldable pub inet_ntop4 : Printf → Peer → ℕ → Option (List ℕ)
inet_ntop4 snprintf p len =
    let tmp =
      snprintf Texts.address_format (int p.ap_0 ∷ int p.ap_1 ∷ int p.ap_2 ∷ int p.ap_3 ∷ []) in
    if leb len (length tmp) then none else some tmp

abbrev pub af_inet : ℕ
af_inet = 2

unfoldable pub inet_ntop : Printf → ℕ → Peer → ℕ → Option (List ℕ)
unfolding inet_ntop4
inet_ntop snprintf af src size = if af == af_inet then inet_ntop4 snprintf src size else none

-- A string that is an argument, or the null pointer.
abbrev pub string_arg : Option (List ℕ) → Arg
string_arg none = int 0
string_arg (some text) = str text

-- A line of the global log, between open_global_log and close_global_log.
abbrev pub report : Kernel → List ℕ → Link → Link
report k line s = record s { log = global_line k.io line s.log }

-- Messages of other threads, one after another.
unfoldable pub send_messages : Kernel → ℕ → List Message → Exec Link (Unit {0})
unfolding send_message_to_client
send_messages k fuel [] = pure tt
send_messages k fuel (msg ∷ msgs) = send_message_to_client k fuel msg >> send_messages k fuel msgs

-- ksceKernelDelayThread. Other threads are taken to run only during the delay, and to send one whole
-- message after another, which they do under the mutex; `held` is that of the thread that runs.
unfoldable pub delay_thread : Kernel → ℕ → Exec Link (Unit {0})
unfolding send_messages
delay_thread k fuel s =
    (send_messages k fuel (k.meanwhile s.clock) >> modify (λ x. record x { held = s.held }))
      (record s { held = 0; clock = suc s.clock })

-- What a round of accept_single_connection does to the loop.
pub data Round : Type 0 where
  again stops : Round

-- A client that was accepted, from its socket on, until the connection is initialized.
unfoldable pub set_connected : Kernel → ℕ → Peer → Link → Link
unfolding lock_listen_mutex unlock_listen_mutex inet_ntop ntohs global_line
set_connected k clsock client s =
    let s1 = record s { client_sock = clsock } in
    let from = string_arg (inet_ntop k.snprintf af_inet client 16) in
    let s2 = report k (k.snprintf Texts.accepted (from ∷ int (ntohs client.port) ∷ [])) s1 in
    unlock_listen_mutex (record (lock_listen_mutex k s2) { conn_initialized = 1 })

unfoldable pub connected : Kernel → ℕ → ℕ → Peer → Exec Link Round
unfolding set_connected ping_debug_client
connected k fuel clsock client =
    modify (set_connected k clsock client) >> ping_debug_client k fuel >> pure again

-- ksceNetAccept and what follows.
unfoldable pub accept_client : Kernel → ℕ → Exec Link Round
unfolding connected global_line
accept_client k fuel s =
    let r = k.accept s.clock s.server_sock in
    if is_neg r.0
    then pure stops (report k (k.snprintf Texts.accept_failed (int r.0 ∷ [])) (tick s))
    else connected k fuel r.0 r.1 (tick s)

-- A round of the loop.
unfoldable pub accept_round : Kernel → ℕ → Exec Link Round
unfolding accept_client delay_thread lock_listen_mutex unlock_listen_mutex
accept_round k fuel = modify (lock_listen_mutex k) >> gets (λ s. s.conn_initialized) >>= λ c.
    (if c == 1
      then delay_thread k fuel >> modify unlock_listen_mutex >> pure again
      else modify unlock_listen_mutex >> accept_client k fuel)

-- The loop, for `rounds` rounds at most.
unfoldable pub accept_single_connection : Kernel → ℕ → ℕ → Exec Link (Unit {0})
unfolding accept_round
accept_single_connection k fuel zero = starve
accept_single_connection k fuel (suc rounds) =
    let rest = accept_single_connection k fuel rounds in
    accept_round k fuel >>= λ r. elim r [ again ↦ rest | stops ↦ pure tt ]

abbrev pub serv_port : ℕ
serv_port = 1332

-- The last step of init_net_internal, of a socket that was bound.
unfoldable pub listen_socket : Kernel → Link → ℕ × Link
unfolding global_line
listen_socket k s =
    if is_neg (k.listen s.clock s.server_sock)
    then (neg 1, report k Texts.listen_failed (tick s))
    else (0, report k Texts.listening (tick s))

unfoldable pub bind_socket : Kernel → Link → ℕ × Link
unfolding listen_socket global_line
bind_socket k s =
    if is_neg (k.bind s.clock s.server_sock)
    then (neg 1, report k Texts.bind_failed (tick s))
    else listen_socket k
        (report k (k.snprintf Texts.binded (str Texts.current_ip ∷ int serv_port ∷ [])) (tick s))

unfoldable pub init_net_internal : Kernel → Link → ℕ × Link
unfolding bind_socket global_line
init_net_internal k s =
    let s1 = record s { server_sock = k.socket s.clock; clock = suc s.clock } in
    if is_neg s1.server_sock
    then (neg 1, report k Texts.socket_failed s1)
    else bind_socket k (report k Texts.socket_created s1)

unfoldable pub conn_listen_thread : Kernel → ℕ → ℕ → Exec Link ℕ
unfolding init_net_internal accept_single_connection global_line
conn_listen_thread k fuel rounds s =
    let out = init_net_internal k s in
    ((if is_neg out.0 then pure tt else accept_single_connection k fuel rounds)
        >> modify (report k Texts.exit_thread)
        >> pure 0)
      out.1
