-- ===== src/Netlog/Released.antt =====
-- driver/net.c: what deinit_net leaves, and when it returns.
use psvemmc.Base.{
  ℕ, suc, ◌≡◌, ◌<◌, ◌⊎◌, inl, inr, ◌∙◌, true, false, List, [], ◌++◌, arith, if◌then◌else◌, is_neg,
  Exec, Outcome, out_of_fuel, pure, modify, ◌>>◌, Returns, Returns-bind, bind-starved, Bool-cases,
}
use psvemmc.Netlog.{Kernel, Link, msg_size, close_client_sock}
use psvemmc.Netlog.Listener.{
  report, init_net_internal, accept_single_connection, conn_listen_thread,
}
use psvemmc.Netlog.Lifecycle.{init_net, deinit_listen_mutex, deinit_listen_thread, deinit_net}
use psvemmc.Netlog.Texts
use psvemmc.Netlog.Frames.{IsKernel}
use psvemmc.Netlog.Connected.{Civil, Unconnected, accepted, accept_single_connection_lem}
use psvemmc.Netlog.Sockets.{
  closing, Sockets, delete_listen_thread-Sockets, deinit_listen_mutex-Sockets, init_net-Sockets,
  close_client_sock-Sockets, close_server_sock-Sockets, init_net_internal-Sockets,
}

module _ (k : Kernel) (rest : Exec Link ℕ) (s : Link) where
  -- The listening thread ends.
  deinit_net_ends :
      (a b c : ℕ) (l : List ℕ)
      → Returns (rest (deinit_listen_mutex k s)) (λ out. Sockets a b c l out.1)
      → Returns (deinit_net k rest s) (λ out. Sockets 0 0 c ((l ++ closing b) ++ closing a) out.1)
  unfolding deinit_net deinit_listen_thread
  deinit_net_ends a b c l h =
      let s1 = deinit_listen_mutex k s in
      Returns-bind
        (modify (deinit_listen_mutex k)
          >> deinit_listen_thread k rest
          >> modify (close_client_sock k))
        _ s (λ out. Sockets a 0 c (l ++ closing b) out.1) _
        (Returns-bind (modify (deinit_listen_mutex k) >> deinit_listen_thread k rest) _ s
          (λ out. Sockets a b c l out.1) _
          (Returns-bind rest _ s1 (λ out. Sockets a b c l out.1) _ h
            (λ r s' v. delete_listen_thread-Sockets k a b c l s' v))
          (λ u s' v. close_client_sock-Sockets k a b c l s' v))
        (λ u s' v. close_server_sock-Sockets k a 0 c (l ++ closing b) s' v)

  -- The listening thread never ends.
  deinit_net_waits :
      rest (deinit_listen_mutex k s) ≡ out_of_fuel → deinit_net k rest s ≡ out_of_fuel
  unfolding deinit_net deinit_listen_thread
  deinit_net_waits h =
      let s1 = deinit_listen_mutex k s in
      let m1 = modify (deinit_listen_mutex k) >> deinit_listen_thread k rest in
      let e1 : m1 s ≡ out_of_fuel = bind-starved rest _ s1 h in
      bind-starved (m1 >> modify (close_client_sock k)) _ s (bind-starved m1 _ s e1)

-- No connection was made, and no socket is known.
abbrev pub Fresh : Link → Type 0
Fresh s = Sockets 0 0 0 [] s

module _ (k : Kernel) where
  -- The state after init_net_internal, as deinit_net comes to it.
  abbrev pub listening : Link → ℕ × Link
  listening s = init_net_internal k (deinit_listen_mutex k s)

  -- What ksceNetSocket gives.
  abbrev pub socket_of : Link → ℕ
  socket_of s = k.socket (deinit_listen_mutex k s).clock

  -- No socket is known, and the one of the server was closed.
  abbrev pub Closed : Link → Unit {0} × Link → Type 0
  Closed s out = Sockets 0 0 0 (closing (socket_of s)) out.1

  -- deinit_net returns if no client was accepted, and else never.
  abbrev pub Stops : Link → Outcome (Unit {0} × Link) → Type 0
  Stops s res =
      (((is_neg (listening s).0 ≡ true) ⊎ (is_neg (accepted k (listening s).1) ≡ true))
        × Returns res (Closed s))
      ⊎ ((is_neg (listening s).0 ≡ false)
          × (is_neg (accepted k (listening s).1) ≡ false)
          × (res ≡ out_of_fuel))

-- The listening thread, once ksceKernelStartThread started it, while deinit_net waits for it.
module _ (k : Kernel) (fuel rounds : ℕ) where
  -- What the listening thread does, if init_net started it.
  abbrev pub started : ℕ → Exec Link ℕ
  started res = if is_neg res then pure 0 else conn_listen_thread k fuel (suc rounds)

module _ (k : Kernel) (law : IsKernel k) (civil : Civil k) (fuel rounds : ℕ)
    (f : msg_size < fuel) where
  thread_failed :
      (s : Link)
      → Sockets 0 0 0 [] s
      → is_neg (init_net_internal k s).0 ≡ true
      → Returns
          (conn_listen_thread k fuel (suc rounds) s)
          (λ out. Sockets (k.socket s.clock) 0 0 [] out.1)
  unfolding conn_listen_thread
  thread_failed s v e = rw e (init_net_internal-Sockets k 0 0 0 [] s v)

  thread_accepts :
      (s : Link)
      → Sockets 0 0 0 [] s
      → is_neg (init_net_internal k s).0 ≡ false
      → ((is_neg (accepted k (init_net_internal k s).1) ≡ true)
          × Returns
              (conn_listen_thread k fuel (suc rounds) s)
              (λ out. Sockets (k.socket s.clock) 0 0 [] out.1))
        ⊎ ((is_neg (accepted k (init_net_internal k s).1) ≡ false)
            × (conn_listen_thread k fuel (suc rounds) s ≡ out_of_fuel))
  unfolding conn_listen_thread
  thread_accepts s v e =
      let s1 = (init_net_internal k s).1 in
      let v1 = init_net_internal-Sockets k 0 0 0 [] s v in
      let loop = accept_single_connection k fuel (suc rounds) in
      let left = λ (out : Unit {0} × Link). Sockets (k.socket s.clock) 0 0 [] out.1 in
      rw e
        (elim (accept_single_connection_lem k law civil fuel rounds s1 f
          (λ c. ground (arith, c, v1.2)) v1.4) [
            | inl (n, r) ↦ inl (
              n,
              Returns-bind (loop >> modify (report k Texts.exit_thread)) _ s1 left _
                  (Returns-bind loop _ s1 (Unconnected s1) left r (λ x s' u. (
                    u.server ∙ v1.0,
                    u.client ∙ v1.1,
                    u.connection ∙ v1.2,
                    u.closed ∙ v1.3,
                    u.free,
                  )))
                  (λ x s' w. w),
            )
            | inr (n, c, starves) ↦ inr (
              n,
              bind-starved (loop >> modify (report k Texts.exit_thread)) _ s1
                  (bind-starved loop _ s1 starves),
            )
          ])

  ends :
      (s : Link)
      → Fresh s
      → Returns
          (conn_listen_thread k fuel (suc rounds) (deinit_listen_mutex k s))
          (λ out. Sockets (socket_of k s) 0 0 [] out.1)
      → Returns (deinit_net k (conn_listen_thread k fuel (suc rounds)) s) (Closed k s)
  ends s v h = deinit_net_ends k (conn_listen_thread k fuel (suc rounds)) s (socket_of k s) 0 0 [] h

  -- The thread was started.
  waited :
      (s : Link) → Fresh s → Stops k s (deinit_net k (conn_listen_thread k fuel (suc rounds)) s)
  waited s v =
      let s1 = deinit_listen_mutex k s in
      let v1 = deinit_listen_mutex-Sockets k 0 0 0 [] s v in
      let thread = conn_listen_thread k fuel (suc rounds) in
      elim (Bool-cases (is_neg (init_net_internal k s1).0)) [
        | inl e ↦ inl (inl e, ends s v (thread_failed s1 v1 e))
        | inr e ↦ elim (thread_accepts s1 v1 e) [
          | inl (n, r) ↦ inl (inr n, ends s v r)
          | inr (n, r) ↦ inr (e, n, deinit_net_waits k thread s r)
        ]
      ]

  -- init_net, where no connection was made before, and deinit_net, which waits for the listening thread,
  -- if init_net started one. If init_net failed, deinit_net returns and closes nothing. Else, if
  -- init_net_internal or ksceNetAccept fails, then deinit_net returns; no socket is known any more, and
  -- the socket that ksceNetSocket gave was closed, if it is not 0, and no other. But if a client was
  -- accepted, deinit_net waits for the thread for ever. Each message that other threads send, one after
  -- another while the thread waits, is assumed to have at most MSG_SIZE bytes, in memory that holds
  -- them, and each call of ksceNetSend to fail or to take at least one byte.
  pub deinit_net-init_net_listener :
      (s : Link)
      → Fresh s
      → (let out = init_net k s in
          ((is_neg out.0 ≡ true)
            × Returns (deinit_net k (started k fuel rounds out.0) out.1) (λ end. Fresh end.1))
          ⊎ ((is_neg out.0 ≡ false)
              × Stops k out.1 (deinit_net k (started k fuel rounds out.0) out.1)))
  deinit_net-init_net_listener s v =
      let out = init_net k s in
      let v1 = init_net-Sockets k 0 0 0 [] s v in
      elim (Bool-cases (is_neg out.0)) [
        | inl e ↦ inl (
          e,
          rw e (
              deinit_net_ends k (pure 0) out.1 0 0 0 []
                (deinit_listen_mutex-Sockets k 0 0 0 [] out.1 v1)),
        )
        | inr e ↦ inr (e, rw e (waited out.1 v1))
      ]
