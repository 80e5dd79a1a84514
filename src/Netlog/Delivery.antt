-- ===== src/Netlog/Delivery.antt =====
-- driver/net.c: what send_message_to_client and ping_debug_client do for a thread that calls them.
use psvemmc.Base.{
  ℕ, ◌≡◌, ◌≢◌, ◌<◌, ◌⊎◌, inl, inr, refl, ap, [], true, false, List, ◌++◌, append-nil, ◌==◌, is_neg,
  length, take, drop, subst, sym, ◌>>◌, modify, Exec, pure, done, Returns, Returns-mono,
  Returns-bind, Bool-cases, ==→eq, ==→ne,
}
use psvemmc.Netlog.{
  Kernel, Link, Message, lock_listen_mutex, unlock_listen_mutex, msg_size, too_long, send_message,
  send_connected, send_message_to_client,
}
use psvemmc.Netlog.Frames.{
  IsKernel, Sends, Fits, frame, set_buffer, after_send, too_long-Fits, send_message_lem,
}

-- The caller does not hold the mutex when the call returns, the connection is as before, and the
-- bytes went to the client.
pub record Delivered (s : Link) (bytes : List ℕ) (out : ℕ × Link) : Type 0 where
  pub result : out.0 ≡ 0
  pub connection : out.1.conn_initialized ≡ s.conn_initialized
  pub socket : out.1.client_sock ≡ s.client_sock
  pub server : out.1.server_sock ≡ s.server_sock
  pub free : out.1.held ≡ 0
  pub log : out.1.log ≡ s.log
  pub closed : out.1.closed ≡ s.closed
  pub sent : out.1.sent ≡ s.sent ++ bytes

-- The frame of a message, or what went out of it before a call of ksceNetSend that failed.
abbrev pub Framed : Kernel → Message → Link → ℕ × Link → Type 0
Framed k msg s out =
    (n : ℕ) × Delivered s (take n (frame msg)) out
    × ((n ≡ length (frame msg))
        ⊎ ((n < length (frame msg))
            × ((u : ℕ) × (is_neg (k.send u s.client_sock (drop n (frame msg))) ≡ true))))

module _ (k : Kernel) (law : IsKernel k) where
  send_connected_lem :
      (fuel : ℕ) (msg : Message) (s : Link)
      → msg_size < fuel
      → Fits msg
      → Returns
          (send_connected k fuel msg s)
          (λ out. Sends k (set_buffer msg s) (frame msg) (0, out.1))
  unfolding send_connected
  send_connected_lem fuel msg s f h =
      Returns-bind (send_message k fuel msg) _ s (Sends k (set_buffer msg s) (frame msg)) _
        (send_message_lem k law fuel msg s f h)
        (λ res s' sends.
          let ok : res ≡ 0 = ap (λ x. x.0) sends.2 in
          let P : ℕ → Type 0 = λ r. Sends k (set_buffer msg s) (frame msg) (r, s') in
          rw ok (subst P ok sends))

  -- The call, once the mutex was asked for.
  abbrev connected_call : ℕ → Message → Exec Link ℕ
  connected_call fuel msg = send_connected k fuel msg >> modify unlock_listen_mutex >> pure 0

  unlocked : (s : Link) → s.held ≡ 0 → (unlock_listen_mutex (lock_listen_mutex k s)).held ≡ 0
  unfolding lock_listen_mutex unlock_listen_mutex
  unlocked s e = elim (Bool-cases (is_neg (k.lock s.clock s.mutex_id))) [
    | inl n ↦ rw (n, e) refl
    | inr n ↦ rw (n, e) refl
  ]

  -- The call with the connection, and without.
  call_connected :
      (fuel : ℕ) (msg : Message) (s : Link)
      → too_long msg.size ≡ false
      → (s.conn_initialized == 1) ≡ true
      → send_message_to_client k fuel msg s ≡ connected_call fuel msg (lock_listen_mutex k s)
  unfolding send_message_to_client
  call_connected fuel msg s t c = rw (t, c) refl

  call_idle :
      (fuel : ℕ) (msg : Message) (s : Link)
      → too_long msg.size ≡ false
      → (s.conn_initialized == 1) ≡ false
      → send_message_to_client k fuel msg s ≡ done (0, unlock_listen_mutex (lock_listen_mutex k s))
  unfolding send_message_to_client
  call_idle fuel msg s t c = rw (t, c) refl

  unlock-Framed :
      (msg : Message) (s s' : Link)
      → s.held ≡ 0
      → Sends k (set_buffer msg (lock_listen_mutex k s)) (frame msg) (0, s')
      → Framed k msg s (0, unlock_listen_mutex s')
  unfolding lock_listen_mutex unlock_listen_mutex
  unlock-Framed msg s s' e (n, t, q, res) =
      let after = after_send (set_buffer msg (lock_listen_mutex k s)) (take n (frame msg)) t in
      let same : s' ≡ after = ap (λ x. x.1) q in
      subst (λ x. Framed k msg s (0, unlock_listen_mutex x)) (sym same)
        (
          n,
          record {
            result = refl;
            connection = refl;
            socket = refl;
            server = refl;
            free = unlocked s e;
            log = refl;
            closed = refl;
            sent = refl;
          },
          res,
        )

  connected_call-Framed :
      (fuel : ℕ) (msg : Message) (s : Link)
      → msg_size < fuel
      → Fits msg
      → s.held ≡ 0
      → Returns (connected_call fuel msg (lock_listen_mutex k s)) (Framed k msg s)
  connected_call-Framed fuel msg s f h e =
      let l = lock_listen_mutex k s in
      Returns-bind (send_connected k fuel msg >> modify unlock_listen_mutex) _ l
        (λ out. Framed k msg s (0, out.1)) _
        (Returns-bind (send_connected k fuel msg) _ l
          (λ out. Sends k (set_buffer msg l) (frame msg) (0, out.1)) _
          (send_connected_lem fuel msg l f h) (λ u s' sends. unlock-Framed msg s s' e sends))
        (λ u s' framed. framed)

  idle-Delivered :
      (s : Link) → s.held ≡ 0 → Delivered s [] (0, unlock_listen_mutex (lock_listen_mutex k s))
  unfolding lock_listen_mutex unlock_listen_mutex
  idle-Delivered s e = record {
    result = refl;
    connection = refl;
    socket = refl;
    server = refl;
    free = unlocked s e;
    log = refl;
    closed = refl;
    sent = sym (append-nil s.sent);
  }

  -- A message that fits into a frame, from a thread that does not hold the mutex, whatever
  -- ksceKernelLockMutex answers: the call returns 0, without the mutex, and leaves the connection and
  -- the sockets as they are. With a connection the client's socket took the whole frame of the message
  -- and no more, or all up to a call of ksceNetSend that failed; without one nothing was sent.
  pub send_message_to_client_lem :
      (fuel : ℕ) (msg : Message) (s : Link)
      → msg_size < fuel
      → Fits msg
      → s.held ≡ 0
      → Returns (send_message_to_client k fuel msg s) (λ out.
        ((s.conn_initialized ≡ 1) × Framed k msg s out)
        ⊎ ((s.conn_initialized ≢ 1) × Delivered s [] out))
  send_message_to_client_lem fuel msg s f h e = elim (Bool-cases (s.conn_initialized == 1)) [
    | inl c ↦ rw (call_connected fuel msg s (too_long-Fits msg h) c) (
        Returns-mono _ (Framed k msg s) _ (λ out d. inl (==→eq s.conn_initialized 1 c, d))
          (connected_call-Framed fuel msg s f h e))
    | inr c ↦
        rw (call_idle fuel msg s (too_long-Fits msg h) c)
          (inr (==→ne s.conn_initialized 1 c, idle-Delivered s e))
  ]

pub Delivered-Framed :
    (k : Kernel) (msg : Message) (s : Link) (out : ℕ × Link)
    → ((s.conn_initialized ≡ 1) × Framed k msg s out)
      ⊎ ((s.conn_initialized ≢ 1) × Delivered s [] out)
    → (bytes : List ℕ) × Delivered s bytes out
Delivered-Framed k msg s out (inl (c, (n, d, res))) = (take n (frame msg), d)
Delivered-Framed k msg s out (inr (c, d)) = ([], d)
