-- ===== src/Netlog/Pinged.antt =====
-- driver/net.c: a round of accept_single_connection that connects a client.
use psvemmc.Base.{
  ℕ, ◌≡◌, ◌≢◌, ◌<◌, ◌⊎◌, inl, inr, refl, [], ◌++◌, arith, take, modify, ◌>>◌, Returns, Returns-mono,
  Returns-bind,
}
use psvemmc.Netlog.{Kernel, Link, Peer, msg_size, ping, ping_debug_client, send_message_to_client}
use psvemmc.Netlog.Listener.{Round, again, set_connected, connected}
use psvemmc.Netlog.Frames.{IsKernel, Fits, frame}
use psvemmc.Netlog.Delivery.{Delivered, Framed, send_message_to_client_lem}

-- The thread waits for the connection to end, and does not hold the mutex.
pub record Serving (s : Link) : Type 0 where
  pub connection : s.conn_initialized ≡ 1
  pub free : s.held ≡ 0

-- A client is connected, and got a part of the ping at least.
pub record Connects (s : Link) (sock : ℕ) (out : Round × Link) : Type 0 where
  pub round : out.0 ≡ again
  pub serving : Serving out.1
  pub client : out.1.client_sock ≡ sock
  pub server : out.1.server_sock ≡ s.server_sock
  pub closed : out.1.closed ≡ s.closed
  pub pinged : (n : ℕ) × (out.1.sent ≡ s.sent ++ take n (frame ping))

ping-Fits : Fits ping
ping-Fits = (omega arith, omega arith)

-- The state in which the ping is sent.
set_connected-Connects :
    (k : Kernel) (sock : ℕ) (peer : Peer) (s s' : Link) (n r : ℕ)
    → s.held ≡ 0
    → Delivered (set_connected k sock peer s) (take n (frame ping)) (r, s')
    → Connects s sock (again, s')
unfolding set_connected
set_connected-Connects k sock peer s s' n r e d = record {
  round = refl;
  serving = record { connection = d.connection; free = d.free };
  client = d.socket;
  server = d.server;
  closed = d.closed;
  pinged = (n, d.sent);
}

set_connected-held :
    (k : Kernel) (sock : ℕ) (peer : Peer) (s : Link)
    → s.held ≡ 0
    → ((set_connected k sock peer s).held ≡ 0)
      × ((set_connected k sock peer s).conn_initialized ≡ 1)
unfolding set_connected
set_connected-held k sock peer s e = (ground (arith, e), refl)

-- The ping, with the connection.
pinged :
    (k : Kernel) (sock : ℕ) (peer : Peer) (s : Link) (out : ℕ × Link)
    → s.held ≡ 0
    → (let c = set_connected k sock peer s in
        ((c.conn_initialized ≡ 1) × Framed k ping c out)
        ⊎ ((c.conn_initialized ≢ 1) × Delivered c [] out))
    → Connects s sock (again, out.1)
pinged k sock peer s (r, s') e (inl (c, (n, d, res))) =
    set_connected-Connects k sock peer s s' n r e d
pinged k sock peer s out e (inr (c, d)) = absurd (c (set_connected-held k sock peer s e).1)

pub connected-Connects :
    (k : Kernel) (law : IsKernel k) (fuel sock : ℕ) (peer : Peer) (s : Link)
    → msg_size < fuel
    → s.held ≡ 0
    → Returns (connected k fuel sock peer s) (Connects s sock)
unfolding connected ping_debug_client
connected-Connects k law fuel sock peer s f e =
    let c = set_connected k sock peer s in
    let P : Link → Type 0 = λ x. Connects s sock (again, x) in
    Returns-bind (modify (set_connected k sock peer) >> ping_debug_client k fuel) _ s
      (λ out. P out.1) (Connects s sock)
      (Returns-bind (send_message_to_client k fuel ping) _ c (λ out. P out.1) (λ out. P out.1)
        (Returns-mono (send_message_to_client k fuel ping c) _ _
          (λ out d. pinged k sock peer s out e d)
          (send_message_to_client_lem k law fuel ping c f ping-Fits
            (set_connected-held k sock peer s e).0))
        (λ r s' p. p))
      (λ u s' p. p)
