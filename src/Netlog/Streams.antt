-- ===== src/Netlog/Streams.antt =====
-- driver/net.c: messages that threads send one after another, and how the client takes their frames apart.
use psvemmc.Base.{
  ℕ, zero, suc, ◌≡◌, ◌≢◌, ◌<◌, inl, inr, refl, ap, sym, ◌∙◌, false, List, [], ◌∷◌, ◌++◌, append-nil,
  append_assoc, arith, is_neg, length, take, drop, take_all, length-append, subst, ◌*◌, ◌⊎◌,
  take-append, drop-append, Returns, Returns-mono, Returns-bind,
}
use psvemmc.Netlog.{Kernel, Link, Message, msg_size, send_message_to_client}
use psvemmc.Netlog.Listener.{send_messages}
use psvemmc.Netlog.Frames.{IsKernel, Fits, frame, length-frame}
use psvemmc.Netlog.Delivery.{Delivered, Framed, Delivered-Framed, send_message_to_client_lem}

abbrev pub AllFit : List Message → Type 0
AllFit [] = Unit
AllFit (msg ∷ msgs) = Fits msg × AllFit msgs

Delivered-trans :
    (s : Link) (a b : ℕ) (xs ys : List ℕ) (s1 s2 : Link)
    → Delivered s xs (a, s1)
    → Delivered s1 ys (b, s2)
    → Delivered s (xs ++ ys) (b, s2)
Delivered-trans s a b xs ys s1 s2 d e = record {
  result = e.result;
  connection = e.connection ∙ d.connection;
  socket = e.socket ∙ d.socket;
  server = e.server ∙ d.server;
  free = e.free;
  log = e.log ∙ d.log;
  closed = e.closed ∙ d.closed;
  sent = e.sent ∙ ap (λ x. x ++ ys) d.sent ∙ append_assoc s.sent xs ys;
}

Delivered-none : (s : Link) → s.held ≡ 0 → Delivered s [] (0, s)
Delivered-none s e = record {
  result = refl;
  connection = refl;
  socket = refl;
  server = refl;
  free = e;
  log = refl;
  closed = refl;
  sent = sym (append-nil s.sent);
}

-- Some bytes went out, and nothing else changed.
abbrev pub Sent : Link → Unit {0} × Link → Type 0
Sent s out = (bytes : List ℕ) × Delivered s bytes (0, out.1)

-- Any messages that fit leave the connection as it is.
pub send_messages-Delivered :
    (k : Kernel)
    → IsKernel k
    → (fuel : ℕ) (msgs : List Message) (s : Link) → msg_size < fuel
    → AllFit msgs
    → s.held ≡ 0
    → Returns (send_messages k fuel msgs s) (Sent s)
unfolding send_messages
send_messages-Delivered k law fuel [] s f a e = ([], Delivered-none s e)
send_messages-Delivered k law fuel (msg ∷ msgs) s f (h, a) e =
    Returns-bind (send_message_to_client k fuel msg) _ s
      (λ out. (bytes : List ℕ) × Delivered s bytes out) _
      (Returns-mono _ _ _ (λ out d. Delivered-Framed k msg s out d)
        (send_message_to_client_lem k law fuel msg s f h e))
      (λ r s1 (xs, d).
        Returns-mono (send_messages k fuel msgs s1) (Sent s1) (Sent s)
          (λ out (ys, d'). (xs ++ ys, Delivered-trans s r 0 xs ys s1 out.1 d d'))
          (send_messages-Delivered k law fuel msgs s1 f a d.free))

-- No call of ksceNetSend fails.
abbrev pub Reliable : Kernel → Type 0
Reliable k = (t sock : ℕ) (bytes : List ℕ) → is_neg (k.send t sock bytes) ≡ false

-- The frames of messages, one behind the other.
abbrev pub stream : List Message → List ℕ
stream [] = []
stream (msg ∷ msgs) = frame msg ++ stream msgs

-- The first `n` frames of a stream, as a client takes them.
abbrev pub receive_frames : ℕ → List ℕ → List (List ℕ)
receive_frames zero bytes = []
receive_frames (suc n) bytes = take msg_size bytes ∷ receive_frames n (drop msg_size bytes)

abbrev pub frames : List Message → List (List ℕ)
frames [] = []
frames (msg ∷ msgs) = frame msg ∷ frames msgs

receive_frames-stream :
    (msgs : List Message) → receive_frames (length msgs) (stream msgs) ≡ frames msgs
receive_frames-stream [] = refl
receive_frames-stream (msg ∷ msgs) =
    rw
      (
        take-append (frame msg) (stream msgs) msg_size (length-frame msg),
        drop-append (frame msg) (stream msgs) msg_size (length-frame msg),
      )
      (ap (λ l. frame msg ∷ l) (receive_frames-stream msgs))

length-stream : (msgs : List Message) → length (stream msgs) ≡ length msgs * msg_size
length-stream [] = refl
length-stream (msg ∷ msgs) =
    omega (arith, length-append (frame msg) (stream msgs), length-frame msg, length-stream msgs)

abbrev pub Streamed : Link → List Message → Unit {0} × Link → Type 0
Streamed s msgs out = Delivered s (stream msgs) (0, out.1)

-- The bytes that went out are the frames of the messages.
abbrev pub Received : Link → List Message → Unit {0} × Link → Type 0
Received s msgs out =
    (bytes : List ℕ) × (out.1.sent ≡ s.sent ++ bytes)
    × (receive_frames (length msgs) bytes ≡ frames msgs)
    × (length bytes ≡ length msgs * msg_size)

module _ (k : Kernel) (law : IsKernel k) (reliable : Reliable k) where
  whole :
      (msg : Message) (s : Link) (out : ℕ × Link)
      → s.conn_initialized ≡ 1
      → ((s.conn_initialized ≡ 1) × Framed k msg s out)
        ⊎ ((s.conn_initialized ≢ 1) × Delivered s [] out)
      → Delivered s (frame msg) out
  whole msg s out c (inl (c', (n, d, inl e))) =
      subst (λ bytes. Delivered s bytes out) (take_all n (frame msg) (omega (arith, e))) d
  whole msg s out c (inl (c', (n, d, inr (l, (u, e))))) =
      ground (arith, e, reliable u s.client_sock (drop n (frame msg)))
  whole msg s out c (inr (c', d)) = absurd (c' c)

  send_messages-stream :
      (fuel : ℕ) (msgs : List Message) (s : Link)
      → msg_size < fuel
      → AllFit msgs
      → s.held ≡ 0
      → s.conn_initialized ≡ 1
      → Returns (send_messages k fuel msgs s) (Streamed s msgs)
  unfolding send_messages
  send_messages-stream fuel [] s f a e c = Delivered-none s e
  send_messages-stream fuel (msg ∷ msgs) s f (h, a) e c =
      Returns-bind (send_message_to_client k fuel msg) _ s (Delivered s (frame msg)) _
        (Returns-mono _ _ _ (λ out d. whole msg s out c d)
          (send_message_to_client_lem k law fuel msg s f h e))
        (λ r s1 d.
          Returns-mono (send_messages k fuel msgs s1) (Streamed s1 msgs) (Streamed s (msg ∷ msgs))
            (λ out d'. Delivered-trans s r 0 (frame msg) (stream msgs) s1 out.1 d d')
            (send_messages-stream fuel msgs s1 f a d.free (d.connection ∙ c)))

  -- Messages that fit into a frame, sent one after another while the connection is there and no
  -- call of ksceNetSend fails: a client that takes MSG_SIZE bytes at a time gets the frame of each
  -- message, in order, and nothing is left over.
  pub send_messages-receive_frames :
      (fuel : ℕ) (msgs : List Message) (s : Link)
      → msg_size < fuel
      → AllFit msgs
      → s.held ≡ 0
      → s.conn_initialized ≡ 1
      → Returns (send_messages k fuel msgs s) (Received s msgs)
  send_messages-receive_frames fuel msgs s f a e c =
      Returns-mono (send_messages k fuel msgs s) (Streamed s msgs) (Received s msgs)
        (λ out d. (stream msgs, d.sent, receive_frames-stream msgs, length-stream msgs))
        (send_messages-stream fuel msgs s f a e c)
