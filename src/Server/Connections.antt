-- ===== src/Server/Connections.antt =====
-- server/src/main.c: init_net, deinit_net, accept_single_connection and main. The texts on the debug
-- screen and the delays change nothing that is modelled.
use psvemmc.Base.{
  ℕ, zero, suc, Bool, false, [], ◌∷◌, ◌++◌, if◌then◌else◌, ◌==◌, is_neg, neg, Exec, done, pure,
  starve, gets, modify, ◌>>=◌, ◌>>◌,
}
use psvemmc.Server.State.{Net, Sys, Server, tick}
use psvemmc.Server.Loop.{receive_commands}

-- A call whose result does not depend on the state but by its number and a socket.
abbrev call : {A : Type 0} → (ℕ → A) → Exec Server A
call f s = done (f s.clock, tick s)

abbrev pub set_cli_sock : ℕ → Server → Server
set_cli_sock sock s = record s { cli_sock = sock }

abbrev pub set_emmc_sock : ℕ → Server → Server
set_emmc_sock sock s = record s { emmc_sock = sock }

abbrev set_net_memory : Bool → Server → Server
set_net_memory b s = record s { net_memory = b }

-- sceNetSocketClose, whose result is only printed.
abbrev close : ℕ → Server → Server
close sock s = record (tick s) { closed = s.closed ++ (sock ∷ []) }

-- if(_cli_sock) { ... _cli_sock = 0; } and its like for _emmc_sock
unfoldable pub close_client : Server → Server
close_client s = if s.cli_sock == 0 then s else set_cli_sock 0 (close s.cli_sock s)

unfoldable pub close_server : Server → Server
close_server s = if s.emmc_sock == 0 then s else set_emmc_sock 0 (close s.emmc_sock s)

module _ (net : Net) where
  -- The memory of the network library, where it is not initialized yet.
  unfoldable pub allocate : Server → Server
  allocate s =
      if net.not_initialized s.clock
      then record s { net_memory = net.malloc (suc s.clock); clock = suc (suc s.clock) }
      else tick s

  -- The steps behind a socket that was created.
  unfoldable pub listen_on : ℕ → Exec Server ℕ
  listen_on sock = do
    bind_res ← call (λ t. net.bind t sock)
    if is_neg bind_res then pure (neg 1) else do
      info ← call net.get_info
      if is_neg info
          then pure (neg 1)
          else do res ← call (λ t. net.listen t sock); if is_neg res then pure (neg 1) else pure 0

  unfoldable pub init_net : Exec Server ℕ
  unfolding allocate listen_on
  init_net = do
    modify allocate
    res ← call net.ctl_init
    if is_neg res then pure (neg 1) else do
      sock ← call net.socket
      modify (set_emmc_sock sock)
      if is_neg sock then pure (neg 1) else listen_on sock

unfoldable pub deinit_net : Server → Server
unfolding close_client close_server
deinit_net s = set_net_memory false (close_server (close_client s))

module _ (sys : Sys) where
  -- while(1): a session has the fuel that is left, too.
  unfoldable pub accept_single_connection : ℕ → Exec Server (Unit {0})
  unfolding receive_commands close_client
  accept_single_connection zero = starve
  accept_single_connection (suc fuel) =
      let again : Exec Server (Unit {0}) = accept_single_connection fuel in
      do
        s ← gets (λ s. s)
        sock ← call (λ t. sys.net.accept t s.emmc_sock)
        modify (set_cli_sock sock)
        if is_neg sock then pure tt else do receive_commands sys fuel; modify close_client; again

  -- The part of main behind the loading of the module.
  unfoldable pub serve : ℕ → Exec Server ℕ
  unfolding init_net deinit_net accept_single_connection
  serve fuel = do
    res ← init_net sys.net
    (if is_neg res then pure tt else accept_single_connection fuel)
    modify deinit_net
    pure 0

  unfoldable pub main : ℕ → Exec Server ℕ
  unfolding serve
  main fuel = do
    loaded ← call sys.net.is_loaded
    if loaded
        then serve fuel
        else do res ← call sys.net.load_module; if is_neg res then pure 1 else serve fuel
