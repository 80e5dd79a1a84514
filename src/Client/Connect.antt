-- ===== src/Client/Connect.antt =====
-- client/psvemmc/EmmcClient.cpp and main of psvemmc.cpp: the connection to the server, and the program.
use psvemmc.Base.{
  ℕ, zero, suc, Option, none, some, List, [], ◌∷◌, ◌++◌, if◌then◌else◌, not, ◌==◌, is_neg, neg,
  Exec, Outcome, done, invalid_access, out_of_fuel, pure, modify, ◌>>=◌, ◌>>◌,
}
use psvemmc.Client.State.{Peer, Client, socket_error}
use psvemmc.Client.Mbr.{dump_device, parse_args}

-- The results of the calls of Winsock: WSAStartup, getaddrinfo and the length of its list, and socket
-- and connect for an address of the list; shutdown for a socket.
pub record Winsock : Type 0 where
  pub wsa_startup : ℕ
  pub getaddrinfo : ℕ
  pub addresses : ℕ
  pub socket : ℕ → ℕ
  pub connect : ℕ → ℕ
  pub shutdown : ℕ → ℕ

-- The sockets that socket gave and those that closesocket got, in order, how often WSAStartup
-- succeeded and WSACleanup was called, and how many lists of getaddrinfo were got and freed.
pub record Sockets : Type 0 where
  pub opened : List ℕ
  pub closed : List ℕ
  pub startups : ℕ
  pub cleanups : ℕ
  pub lists : ℕ
  pub freed : ℕ

-- INVALID_SOCKET
abbrev pub invalid_socket : ℕ
invalid_socket = neg 1

abbrev pub wsa_cleanup : Sockets → Sockets
wsa_cleanup k = record k { cleanups = suc k.cleanups }

abbrev pub closesocket : ℕ → Sockets → Sockets
closesocket sock k = record k { closed = k.closed ++ (sock ∷ []) }

module _ (wsa : Winsock) where
  -- The loop over the addresses, of which `n` are left from the i-th on: the ConnectSocket at its end,
  -- or none where the function returns -1 inside of it.
  unfoldable pub connect_loop : ℕ → ℕ → Exec Sockets (Option ℕ)
  connect_loop zero i = pure (some invalid_socket)
  connect_loop (suc n) i =
      let rest : Exec Sockets (Option ℕ) = connect_loop n (suc i) in
      let sock = wsa.socket i in
      if sock == invalid_socket then (do modify wsa_cleanup; pure none) else do
        modify (λ k. record k { opened = k.opened ++ (sock ∷ []) })
        if wsa.connect i == socket_error
            then (do modify (closesocket sock); rest)
            else pure (some sock)

  -- Behind the loop.
  abbrev pub after_loop : Option ℕ → Exec Sockets (ℕ × ℕ)
  after_loop none = pure (neg 1, invalid_socket)
  after_loop (some connect_socket) = do
    modify (λ k. record k { freed = suc k.freed })
    if connect_socket == invalid_socket
        then (do modify wsa_cleanup; pure (neg 1, connect_socket))
        else pure (0, connect_socket)

  -- The result, and the socket where it is 0.
  unfoldable pub initialize_emmc_proxy_connection : Exec Sockets (ℕ × ℕ)
  unfolding connect_loop
  initialize_emmc_proxy_connection = if not (wsa.wsa_startup == 0) then pure (neg 1, 0) else do
    modify (λ k. record k { startups = suc k.startups })
    if not (wsa.getaddrinfo == 0) then (do modify wsa_cleanup; pure (neg 1, 0)) else do
      modify (λ k. record k { lists = suc k.lists })
      found ← connect_loop wsa.addresses 0
      after_loop found

  unfoldable pub deinitialize_emmc_proxy_connection : ℕ → Exec Sockets ℕ
  deinitialize_emmc_proxy_connection connect_socket = do
    modify (closesocket connect_socket)
    modify wsa_cleanup
    pure (if wsa.shutdown connect_socket == socket_error then neg 1 else 0)

-- The program with its connection.
pub record Process : Type 0 where
  pub client : Client
  pub sockets : Sockets

abbrev pub within : {A S : Type 0} → Outcome (A × S) → (S → Process) → Outcome (A × Process)
within (done (a, s)) put = done (a, put s)
within invalid_access put = invalid_access
within out_of_fuel put = out_of_fuel

abbrev pub in_client : {A : Type 0} → Exec Client A → Exec Process A
in_client m p = within (m p.client) (λ c. record p { client = c })

abbrev pub in_sockets : {A : Type 0} → Exec Sockets A → Exec Process A
in_sockets m p = within (m p.sockets) (λ k. record p { sockets = k })

-- The exit code, or none where an exception leaves main.
module _ (wsa : Winsock) (peer : Peer) (lexical_cast : List ℕ → Option ℕ) where
  unfoldable pub main : List (List ℕ) → Exec Process (Option ℕ)
  main argv = elim (parse_args lexical_cast argv) [
    | none ↦ pure none
    | some (res, dump_mode, dump_partition_index, path) ↦ if is_neg res then pure (some 1) else do
      init ← in_sockets (initialize_emmc_proxy_connection wsa)
      if is_neg init.0 then pure (some 1) else do
        in_client (dump_device peer dump_mode dump_partition_index)
        res_2 ← in_sockets (deinitialize_emmc_proxy_connection wsa init.1)
        pure (some (if is_neg res_2 then 1 else 0))
  ]
