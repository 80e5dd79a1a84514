-- ===== src/Client/Closing.antt =====
-- client/psvemmc/EmmcClient.cpp: every socket that is opened is closed once.
use psvemmc.Base.{
  ℕ, zero, suc, ◌+◌, ◌≡◌, ◌≢◌, ◌⊎◌, inl, inr, refl, sym, ◌∙◌, Option, none, some, List, [], ◌∷◌,
  ◌++◌, append-nil, append_assoc, arith, ◌==◌, neg, ==→ne, ne→==, Returns, Returns-mono,
  Returns-bind, branch-Returns, guard-Returns,
}
use psvemmc.Client.Connect.{
  Winsock, Sockets, invalid_socket, connect_loop, after_loop, initialize_emmc_proxy_connection,
}

-- These sockets were opened and closed.
abbrev pub tried : Sockets → List ℕ → Sockets
tried k xs = record k { opened = k.opened ++ xs; closed = k.closed ++ xs }

-- These sockets were opened and closed, and then this one was opened.
abbrev pub connected : Sockets → List ℕ → ℕ → Sockets
connected k xs sock = record k { opened = k.opened ++ (xs ++ (sock ∷ [])); closed = k.closed ++ xs }

abbrev pub Looped : Sockets → Option ℕ × Sockets → Type 0
Looped k out =
    (xs : List ℕ) × (((sock : ℕ) × (out.0 ≡ some sock)
        × (sock ≢ invalid_socket)
        × (out.1 ≡ connected k xs sock))
      ⊎ ((out.0 ≡ some invalid_socket) × (out.1 ≡ tried k xs))
      ⊎ ((out.0 ≡ none) × (out.1 ≡ record (tried k xs) { cleanups = suc k.cleanups })))

Looped-none : (k : Sockets) → Looped k (some invalid_socket, k)
Looped-none k = (
  [],
  inr (
      inl (
        refl,
        λ i. record k {
          opened = sym (append-nil k.opened) i;
          closed = sym (append-nil k.closed) i;
        },
      )),
)

-- An address whose connect fails, and the others.
Looped-next :
    (k : Sockets) (x : ℕ) (out : Option ℕ × Sockets) → Looped (tried k (x ∷ [])) out → Looped k out
Looped-next k x out (xs, inl (sock, a, b, e)) = (
  x ∷ xs,
  inl (
    sock,
    a,
    b,
    e ∙ λ i. record k {
      opened = append_assoc k.opened (x ∷ []) (xs ++ (sock ∷ [])) i;
      closed = append_assoc k.closed (x ∷ []) xs i;
    },
  ),
)
Looped-next k x out (xs, inr (inl (a, e))) = (
  x ∷ xs,
  inr (
      inl (
        a,
        e ∙ λ i. record k {
          opened = append_assoc k.opened (x ∷ []) xs i;
          closed = append_assoc k.closed (x ∷ []) xs i;
        },
      )),
)
Looped-next k x out (xs, inr (inr (a, e))) = (
  x ∷ xs,
  inr (
      inr (
        a,
        e ∙ λ i. record k {
          opened = append_assoc k.opened (x ∷ []) xs i;
          closed = append_assoc k.closed (x ∷ []) xs i;
          cleanups = suc k.cleanups;
        },
      )),
)

connect_loop_lem :
    (wsa : Winsock) (n i : ℕ) (k : Sockets) → Returns (connect_loop wsa n i k) (Looped k)
unfolding connect_loop
connect_loop_lem wsa zero i k = Looped-none k
connect_loop_lem wsa (suc n) i k =
    let sock = wsa.socket i in
    branch-Returns (sock == invalid_socket) _ _ k (Looped k)
      (λ bad. (
        [],
        inr (
            inr (
              refl,
              λ j. record k {
                opened = sym (append-nil k.opened) j;
                closed = sym (append-nil k.closed) j;
                cleanups = suc k.cleanups;
              },
            )),
      ))
      (λ good.
        branch-Returns (wsa.connect i == _) _ _ (record k { opened = k.opened ++ (sock ∷ []) })
          (Looped k)
          (λ failed.
            Returns-mono (connect_loop wsa n (suc i) (tried k (sock ∷ []))) _ (Looped k)
              (Looped-next k sock) (connect_loop_lem wsa n (suc i) (tried k (sock ∷ []))))
          (λ fine. (
            [],
            inl (
              sock,
              refl,
              ==→ne sock invalid_socket good,
              λ j. record k {
                opened = k.opened ++ (sock ∷ []);
                closed = sym (append-nil k.closed) j;
              },
            ),
          )))

-- All sockets that were opened are closed, each once and in order, and every successful WSAStartup has
-- its WSACleanup.
abbrev pub Closed : Sockets → Sockets → Type 0
Closed k k' =
    (xs : List ℕ) × (n : ℕ) × (k'.opened ≡ k.opened ++ xs)
    × (k'.closed ≡ k.closed ++ xs)
    × (k'.startups ≡ n + k.startups)
    × (k'.cleanups ≡ n + k.cleanups)

-- The result 0, and of all sockets that were opened only the last is open; or -1 and none is.
abbrev pub Initialized : Sockets → (ℕ × ℕ) × Sockets → Type 0
Initialized k out =
    ((out.0.0 ≡ 0)
      × ((xs : List ℕ) × (out.1 ≡ record (connected k xs out.0.1) {
        startups = suc k.startups;
        lists = suc k.lists;
        freed = suc k.freed;
      })))
    ⊎ ((out.0.0 ≡ neg 1) × Closed k out.1)

-- Whatever Winsock answers, initialize_emmc_proxy_connection returns: with 0, and then every
-- socket that it opened was closed again but the last, which it gives, and WSACleanup was not
-- called; or with -1, and then every socket that it opened was closed once and a successful
-- WSAStartup has its WSACleanup.
pub initialize_emmc_proxy_connection_lem :
    (wsa : Winsock) (k : Sockets) → Returns (initialize_emmc_proxy_connection wsa k) (Initialized k)
unfolding initialize_emmc_proxy_connection
initialize_emmc_proxy_connection_lem wsa k =
    guard-Returns (wsa.wsa_startup == 0) _ _ k (Initialized k)
      (λ bad. inr (
        refl,
        ([], 0, sym (append-nil k.opened), sym (append-nil k.closed), omega arith, omega arith),
      ))
      (λ good.
        guard-Returns (wsa.getaddrinfo == 0) _ _ k1 (Initialized k)
          (λ bad. inr (
            refl,
            ([], 1, sym (append-nil k.opened), sym (append-nil k.closed), omega arith, omega arith),
          ))
          (λ fine.
            Returns-bind (connect_loop wsa wsa.addresses 0) _ k2 (Looped k2) (Initialized k)
              (connect_loop_lem wsa wsa.addresses 0 k2) ended))
  where
    k1 : Sockets
    k1 = record k { startups = suc k.startups }

    k2 : Sockets
    k2 = record k1 { lists = suc k.lists }

    ended :
        (found : Option ℕ) (k' : Sockets)
        → Looped k2 (found, k')
        → Returns (after_loop wsa found k') (Initialized k)
    ended found k' (xs, inl (sock, a, b, e)) =
        rw (a, e, ne→== sock invalid_socket b) (inl (refl, (xs, refl)))
    ended found k' (xs, inr (inl (a, e))) =
        rw (a, e) (inr (refl, (xs, 1, refl, refl, omega arith, omega arith)))
    ended found k' (xs, inr (inr (a, e))) =
        rw (a, e) (inr (refl, (xs, 1, refl, refl, omega arith, omega arith)))
