-- ===== src/Netlog/Sockets.antt =====
-- driver/net.c: what init_net, the listening thread and deinit_net do to the sockets.
use psvemmc.Base.{
  ℕ, suc, ◌≡◌, inl, inr, refl, sym, ◌∙◌, Bool, true, false, List, [], ◌∷◌, ◌++◌, append-nil,
  if◌then◌else◌, ◌==◌, ==→eq, is_neg, neg, Bool-cases,
}
use psvemmc.Netlog.{Kernel, Link, tick, close_client_sock}
use psvemmc.Netlog.Listener.{report, serv_port, listen_socket, bind_socket, init_net_internal}
use psvemmc.Netlog.Lifecycle.{
  init_net, init_listen_mutex, init_listen_thread, deinit_listen_mutex, delete_listen_thread,
  close_server_sock,
}
use psvemmc.Netlog.Texts
use psvemmc.Log.Lines.{int, str}

-- A descriptor that is set, as it is closed.
abbrev pub closing : ℕ → List ℕ
closing sock = if sock == 0 then [] else (sock ∷ [])

-- The sockets, the connection, and what was closed; the thread that runs does not hold the mutex.
abbrev pub Sockets : ℕ → ℕ → ℕ → List ℕ → Link → Type 0
Sockets server client conn closed s =
    (s.server_sock ≡ server)
    × (s.client_sock ≡ client)
    × (s.conn_initialized ≡ conn)
    × (s.closed ≡ closed)
    × (s.held ≡ 0)

closing_none :
    (sock a : ℕ) (xs l : List ℕ) → sock ≡ a → xs ≡ l → (sock == 0) ≡ true → xs ≡ l ++ closing a
closing_none sock a xs l q r e = rw (sym q, e) (r ∙ sym (append-nil l))

closing_some :
    (sock a : ℕ) (xs l : List ℕ)
    → sock ≡ a
    → xs ≡ l
    → (sock == 0) ≡ false
    → xs ++ (sock ∷ []) ≡ l ++ closing a
closing_some sock a xs l q r e = rw (sym q, e, r) refl

module _ (k : Kernel) (a b c : ℕ) (l : List ℕ) where
  listen_socket-Sockets : (s : Link) → Sockets a b c l s → Sockets a b c l (listen_socket k s).1
  unfolding listen_socket
  listen_socket-Sockets s v = elim (Bool-cases (is_neg (k.listen s.clock s.server_sock))) [
    | inl e ↦ rw e v
    | inr e ↦ rw e v
  ]

  bind_socket-Sockets : (s : Link) → Sockets a b c l s → Sockets a b c l (bind_socket k s).1
  unfolding bind_socket
  bind_socket-Sockets s v = elim (Bool-cases (is_neg (k.bind s.clock s.server_sock))) [
    | inl e ↦ rw e v
    | inr e ↦ rw e (
        listen_socket-Sockets
          (report k (k.snprintf Texts.binded (str Texts.current_ip ∷ int serv_port ∷ [])) (tick s))
          v)
  ]

  pub delete_listen_thread-Sockets :
      (s : Link) → Sockets a b c l s → Sockets a b c l (delete_listen_thread k s)
  unfolding delete_listen_thread
  delete_listen_thread-Sockets s v =
      elim (Bool-cases (is_neg (k.delete_thread s.clock s.thread_id))) [
        | inl e ↦ rw e v
        | inr e ↦ rw e v
      ]

  pub deinit_listen_mutex-Sockets :
      (s : Link) → Sockets a b c l s → Sockets a b c l (deinit_listen_mutex k s)
  unfolding deinit_listen_mutex
  deinit_listen_mutex-Sockets s v = elim (Bool-cases (is_neg (k.delete_mutex s.clock s.mutex_id))) [
    | inl e ↦ rw e v
    | inr e ↦ rw e v
  ]

  init_listen_mutex-Sockets :
      (s : Link) → Sockets a b c l s → Sockets a b c l (init_listen_mutex k s).1
  unfolding init_listen_mutex
  init_listen_mutex-Sockets s v = elim (Bool-cases (is_neg (k.create_mutex s.clock))) [
    | inl e ↦ rw e v
    | inr e ↦ rw e v
  ]

  init_listen_thread-Sockets :
      (s : Link) → Sockets a b c l s → Sockets a b c l (init_listen_thread k s).1
  unfolding init_listen_thread
  init_listen_thread-Sockets s v = elim (Bool-cases (is_neg (k.create_thread s.clock))) [
    | inl e ↦ rw e v
    | inr e ↦ rw e v
  ]

  branch-Sockets :
      (m t : Bool) (x y z : ℕ × Link)
      → Sockets a b c l x.1
      → Sockets a b c l y.1
      → Sockets a b c l z.1
      → Sockets a b c l (if m then x else (if t then y else z)).1
  branch-Sockets true t x y z u v w = u
  branch-Sockets false true x y z u v w = v
  branch-Sockets false false x y z u v w = w

  pub init_net-Sockets : (s : Link) → Sockets a b c l s → Sockets a b c l (init_net k s).1
  unfolding init_net
  init_net-Sockets s v =
      let m = init_listen_mutex k s in
      let t = init_listen_thread k m.1 in
      let vm = init_listen_mutex-Sockets s v in
      let vt = init_listen_thread-Sockets m.1 vm in
      branch-Sockets (is_neg m.0) (is_neg t.0) (neg 1, m.1) (neg 1, t.1) (0, tick t.1) vm vt vt

  pub close_client_sock-Sockets :
      (s : Link) → Sockets a b c l s → Sockets a 0 c (l ++ closing b) (close_client_sock k s)
  unfolding close_client_sock
  close_client_sock-Sockets s v = elim (Bool-cases (s.client_sock == 0)) [
    | inl e ↦ rw e (v.0, ==→eq s.client_sock 0 e, v.2, closing_none _ b s.closed l v.1 v.3 e, v.4)
    | inr e ↦ rw e (v.0, refl, v.2, closing_some _ b s.closed l v.1 v.3 e, v.4)
  ]

  pub close_server_sock-Sockets :
      (s : Link) → Sockets a b c l s → Sockets 0 b c (l ++ closing a) (close_server_sock k s)
  unfolding close_server_sock
  close_server_sock-Sockets s v = elim (Bool-cases (s.server_sock == 0)) [
    | inl e ↦ rw e (==→eq s.server_sock 0 e, v.1, v.2, closing_none _ a s.closed l v.0 v.3 e, v.4)
    | inr e ↦ rw e (refl, v.1, v.2, closing_some _ a s.closed l v.0 v.3 e, v.4)
  ]

pub init_net_internal-Sockets :
    (k : Kernel) (a b c : ℕ) (l : List ℕ) (s : Link)
    → Sockets a b c l s
    → Sockets (k.socket s.clock) b c l (init_net_internal k s).1
unfolding init_net_internal
init_net_internal-Sockets k a b c l s v =
    let s1 = record s { server_sock = k.socket s.clock; clock = suc s.clock } in
    elim (Bool-cases (is_neg (k.socket s.clock))) [
      | inl e ↦ rw e (refl, v.1, v.2, v.3, v.4)
      | inr e ↦ rw e (
          bind_socket-Sockets k (k.socket s.clock) b c l (report k Texts.socket_created s1)
            (refl, v.1, v.2, v.3, v.4))
    ]
