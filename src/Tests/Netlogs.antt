-- ===== src/Tests/Netlogs.antt =====
-- Examples of the log over the network of driver/net.c.
use psvemmc.Base.{
  ◌≡◌, ◌≢◌, ◌⊎◌, inr, refl, true, false, [], ◌∷◌, arith, is_neg, neg, length, min, replicate,
  Returns,
}
use psvemmc.Log.{empty_log}
use psvemmc.Netlog.{Kernel, Link, Message, ping, send_message_to_client}
use psvemmc.Netlog.Listener.{send_messages}
use psvemmc.Netlog.Lifecycle.{init_net, deinit_net}
use psvemmc.Netlog.Frames.{IsKernel, Fits}
use psvemmc.Netlog.Delivery.{Framed, Delivered, send_message_to_client_lem}
use psvemmc.Netlog.Streams.{Reliable, Received, send_messages-receive_frames}
use psvemmc.Netlog.Connected.{Civil}
use psvemmc.Netlog.Released.{Fresh, Stops, started, deinit_net-init_net_listener}
use psvemmc.Tests.Logs.{io}

-- A kernel whose sockets take 100 bytes at a time. A client connects, and another thread sends
-- messages meanwhile.
abbrev kernel : Kernel
kernel = record {
  lock = λ t id. 0;
  send = λ t sock bytes. min 100 (length bytes);
  accept = λ t sock. (7, record { ap_0 = 192; ap_1 = 168; ap_2 = 0; ap_3 = 2; port = 13317 });
  socket = λ t. 5;
  bind = λ t sock. 0;
  listen = λ t sock. 0;
  close = λ t sock. 0;
  create_mutex = λ t. 3;
  delete_mutex = λ t id. 0;
  create_thread = λ t. 4;
  delete_thread = λ t id. 0;
  meanwhile = λ t. ping ∷ [];
  io = io;
  snprintf = λ format args. format;
}

kernel-IsKernel : IsKernel kernel
kernel-IsKernel = record { send_law = λ t sock bytes h. inr (omega arith, omega arith) }

kernel-Reliable : Reliable kernel
kernel-Reliable t sock bytes = ground arith

kernel-Civil : Civil kernel
kernel-Civil t = ((omega arith, omega arith), tt)

abbrev fresh : Link
fresh = record {
  thread_id = neg 1;
  mutex_id = neg 1;
  conn_initialized = 0;
  server_sock = 0;
  client_sock = 0;
  message_buffer = replicate 256 0;
  log = empty_log;
  held = 0;
  sent = [];
  closed = [];
  clock = 0;
}

abbrev with_client : Link
with_client = record fresh { conn_initialized = 1; client_sock = 7 }

abbrev hello : Message
hello = record { bytes = b'h' ∷ b'i' ∷ []; size = 2 }

hello-Fits : Fits hello
hello-Fits = (omega arith, omega arith)

send_message_to_client_lem_example :
    Returns (send_message_to_client kernel 257 hello with_client) (λ out.
      ((with_client.conn_initialized ≡ 1) × Framed kernel hello with_client out)
      ⊎ ((with_client.conn_initialized ≢ 1) × Delivered with_client [] out))
send_message_to_client_lem_example =
    send_message_to_client_lem kernel kernel-IsKernel 257 hello with_client (omega arith) hello-Fits
      refl

send_messages-receive_frames_example :
    Returns
      (send_messages kernel 257 (hello ∷ ping ∷ []) with_client)
      (Received with_client (hello ∷ ping ∷ []))
send_messages-receive_frames_example =
    send_messages-receive_frames kernel kernel-IsKernel kernel-Reliable 257 (hello ∷ ping ∷ [])
      with_client (omega arith) (hello-Fits, ((kernel-Civil 0).0, tt)) refl refl

deinit_net-init_net_listener_example :
    (let out = init_net kernel fresh in
      let end = deinit_net kernel (started kernel 257 2 out.0) out.1 in
      ((is_neg out.0 ≡ true) × Returns end (λ end. Fresh end.1))
      ⊎ ((is_neg out.0 ≡ false) × Stops kernel out.1 end))
deinit_net-init_net_listener_example =
    deinit_net-init_net_listener kernel kernel-IsKernel kernel-Civil 257 2 (omega arith) fresh
      (refl, refl, refl, refl, refl)
