-- ===== src/Netlog/Connected.antt =====
-- driver/net.c: accept_single_connection, before a client is accepted and after that.
use psvemmc.Base.{
  ℕ, zero, suc, ◌≡◌, ◌≢◌, ◌<◌, ◌⊎◌, inl, inr, refl, ◌∙◌, true, false, List, arith, ◌==◌, is_neg,
  eq→==, ne→==, out_of_fuel, pure, modify, ◌>>◌, Returns, Returns-mono, Returns-bind, bind-outcome,
  Bool-cases,
}
use psvemmc.Netlog.{Kernel, Link, msg_size, tick, lock_listen_mutex, unlock_listen_mutex}
use psvemmc.Netlog.Listener.{
  again, stops, send_messages, delay_thread, connected, accept_client, accept_round,
  accept_single_connection,
}
use psvemmc.Netlog.Frames.{IsKernel}
use psvemmc.Netlog.Delivery.{Delivered}
use psvemmc.Netlog.Streams.{AllFit, Sent, send_messages-Delivered}
use psvemmc.Netlog.Pinged.{Serving, Connects, connected-Connects}

-- What other threads send meanwhile fits into frames.
abbrev pub Civil : Kernel → Type 0
Civil k = (t : ℕ) → AllFit (k.meanwhile t)

-- The state after a round: the connection is there still.
pub record Kept (s s' : Link) : Type 0 where
  pub serving : Serving s'
  pub client : s'.client_sock ≡ s.client_sock
  pub server : s'.server_sock ≡ s.server_sock
  pub closed : s'.closed ≡ s.closed

-- A round with the connection is a delay.
round_serving :
    (k : Kernel) (fuel : ℕ) (s : Link)
    → (s.conn_initialized == 1) ≡ true
    → accept_round k fuel s
      ≡ (delay_thread k fuel >> modify unlock_listen_mutex >> pure again) (lock_listen_mutex k s)
unfolding accept_round
round_serving k fuel s c = rw c refl

round_idle :
    (k : Kernel) (fuel : ℕ) (s : Link)
    → (s.conn_initialized == 1) ≡ false
    → accept_round k fuel s ≡ accept_client k fuel (unlock_listen_mutex (lock_listen_mutex k s))
unfolding accept_round
round_idle k fuel s c = rw c refl

module _ (k : Kernel) (law : IsKernel k) (civil : Civil k) (fuel : ℕ) (f : msg_size < fuel) where
  -- What other threads send in the delay.
  after_delay :
      (s s' : Link) (bytes : List ℕ)
      → Serving s
      → Delivered
          (record (lock_listen_mutex k s) { held = 0; clock = suc (lock_listen_mutex k s).clock })
          bytes
          (0, s')
      → Kept s (unlock_listen_mutex (record s' { held = (lock_listen_mutex k s).held }))
  unfolding lock_listen_mutex unlock_listen_mutex
  after_delay s s' bytes v d = record {
    serving = record { connection = d.connection ∙ v.connection; free = ground (arith, v.free) };
    client = d.socket;
    server = d.server;
    closed = d.closed;
  }

  delay-Kept :
      (s : Link)
      → Serving s
      → Returns
          ((delay_thread k fuel >> modify unlock_listen_mutex >> pure again)
            (lock_listen_mutex k s))
          (λ out. (out.0 ≡ again) × Kept s out.1)
  unfolding delay_thread
  delay-Kept s v =
      let l = lock_listen_mutex k s in
      let s0 = record l { held = 0; clock = suc l.clock } in
      Returns-bind (delay_thread k fuel >> modify unlock_listen_mutex) _ l (λ out. Kept s out.1) _
        (Returns-bind (delay_thread k fuel) _ l (λ out. Kept s (unlock_listen_mutex out.1)) _
          (Returns-bind (send_messages k fuel (k.meanwhile l.clock)) _ s0 (Sent s0) _
            (send_messages-Delivered k law fuel (k.meanwhile l.clock) s0 f (civil l.clock) refl)
            (λ u s' (bytes, d). after_delay s s' bytes v d))
          (λ u s' kept. kept))
        (λ u s' kept. (refl, kept))

  round-Kept :
      (s : Link)
      → Serving s
      → Returns (accept_round k fuel s) (λ out. (out.0 ≡ again) × Kept s out.1)
  round-Kept s v =
      rw (round_serving k fuel s (eq→== s.conn_initialized 1 v.connection)) (delay-Kept s v)

  -- The loop does not end while the connection is there, and what sends messages never ends it.
  pub accept_single_connection-Serving :
      (rounds : ℕ) (s : Link) → Serving s → accept_single_connection k fuel rounds s ≡ out_of_fuel
  unfolding accept_single_connection
  accept_single_connection-Serving zero s v = refl
  accept_single_connection-Serving (suc rounds) s v =
      bind-outcome (accept_round k fuel) _ s (λ out. (out.0 ≡ again) × Kept s out.1) out_of_fuel
        (round-Kept s v)
        (λ r s' (e, kept). rw e (accept_single_connection-Serving rounds s' kept.serving))

-- ksceNetAccept failed: the thread stops, and nothing changed.
pub record Unconnected (s : Link) (out : Unit {0} × Link) : Type 0 where
  pub connection : out.1.conn_initialized ≡ s.conn_initialized
  pub client : out.1.client_sock ≡ s.client_sock
  pub server : out.1.server_sock ≡ s.server_sock
  pub free : out.1.held ≡ 0
  pub closed : out.1.closed ≡ s.closed
  pub sent : out.1.sent ≡ s.sent

-- What ksceNetAccept answers in the first round.
abbrev pub accepted : Kernel → Link → ℕ
accepted k s = (k.accept (suc s.clock) s.server_sock).0

module _ (k : Kernel) (fuel : ℕ) where
  accept_client_failed :
      (s : Link)
      → s.held ≡ 0
      → is_neg (accepted k s) ≡ true
      → Returns
          (accept_client k fuel (unlock_listen_mutex (lock_listen_mutex k s)))
          (λ out. (out.0 ≡ stops) × Unconnected s (tt, out.1))
  unfolding accept_client lock_listen_mutex unlock_listen_mutex
  accept_client_failed s e n = rw n (
    refl,
    record {
      connection = refl;
      client = refl;
      server = refl;
      free = ground (arith, e);
      closed = refl;
      sent = refl;
    },
  )

  accept_client-Connects :
      (law : IsKernel k)
      → (s : Link) → msg_size < fuel
      → s.held ≡ 0
      → is_neg (accepted k s) ≡ false
      → Returns
          (accept_client k fuel (unlock_listen_mutex (lock_listen_mutex k s)))
          (Connects s (accepted k s))
  unfolding accept_client lock_listen_mutex unlock_listen_mutex
  accept_client-Connects law s f e n =
      let s0 = tick (unlock_listen_mutex (lock_listen_mutex k s)) in
      let r = k.accept (suc s.clock) s.server_sock in
      rw n (
        Returns-mono (connected k fuel r.0 r.1 s0) (Connects s0 r.0) (Connects s r.0)
          (λ out c. record {
            round = c.round;
            serving = c.serving;
            client = c.client;
            server = c.server;
            closed = c.closed;
            pinged = c.pinged;
          })
          (connected-Connects k law fuel r.0 r.1 s0 f (ground (arith, e))))

module _ (k : Kernel) (fuel rounds : ℕ) (s : Link) where
  accept_stops :
      Returns (accept_round k fuel s) (λ out. (out.0 ≡ stops) × Unconnected s (tt, out.1))
      → Returns (accept_single_connection k fuel (suc rounds) s) (Unconnected s)
  unfolding accept_single_connection
  accept_stops h =
      Returns-bind (accept_round k fuel) _ s (λ out. (out.0 ≡ stops) × Unconnected s (tt, out.1))
        (Unconnected s) h (λ r s' (e, u). rw e u)

  accept_goes_on :
      (law : IsKernel k) (civil : Civil k) (sock : ℕ)
      → msg_size < fuel
      → Returns (accept_round k fuel s) (Connects s sock)
      → accept_single_connection k fuel (suc rounds) s ≡ out_of_fuel
  unfolding accept_single_connection
  accept_goes_on law civil sock f h =
      bind-outcome (accept_round k fuel) _ s (Connects s sock) out_of_fuel h (λ r s' c.
        rw c.round (accept_single_connection-Serving k law civil fuel f rounds s' c.serving))

pub accept_single_connection_lem :
    (k : Kernel) (law : IsKernel k) (civil : Civil k) (fuel rounds : ℕ) (s : Link)
    → msg_size < fuel
    → s.conn_initialized ≢ 1
    → s.held ≡ 0
    → ((is_neg (accepted k s) ≡ true)
        × Returns (accept_single_connection k fuel (suc rounds) s) (Unconnected s))
      ⊎ ((is_neg (accepted k s) ≡ false)
          × Returns (accept_round k fuel s) (Connects s (accepted k s))
          × (accept_single_connection k fuel (suc rounds) s ≡ out_of_fuel))
accept_single_connection_lem k law civil fuel rounds s f c e =
    let idle = round_idle k fuel s (ne→== s.conn_initialized 1 c) in
    elim (Bool-cases (is_neg (accepted k s))) [
      | inl n ↦ inl (n, accept_stops k fuel rounds s (rw idle (accept_client_failed k fuel s e n)))
      | inr n ↦
          let connects : Returns (accept_round k fuel s) (Connects s (accepted k s)) =
            rw idle (accept_client-Connects k fuel law s f e n) in
          inr (n, connects, accept_goes_on k fuel rounds s law civil (accepted k s) f connects)
    ]
