-- ===== src/Tests/Connections.antt =====
-- Examples of the connections of server/src/main.c.
use psvemmc.Base.{
  ℕ, ◌≤◌, ◌≡◌, refl, true, false, [], ◌∷◌, ◌++◌, if◌then◌else◌, ◌==◌, is_neg, ltb, arith, Returns,
}
use psvemmc.Server.Connections.{init_net, deinit_net, accept_single_connection}
use psvemmc.Server.Session.{IsReady}
use psvemmc.Server.Sockets.{
  Released, new_socket, deinit_net-init_net, accept_single_connection-IsReady,
}
use psvemmc.Tests.{
  disk, net, system, five, closed, no_deinit, ready_server, idle_server, system-IsSys,
  ready_server-IsReady,
}

deinit_net-init_net_example : Returns (init_net (net five) idle_server) (λ out.
    Released (deinit_net out.1) (
      []
      ++ (if new_socket (net five) idle_server == 0
          then []
          else (new_socket (net five) idle_server ∷ []))))
deinit_net-init_net_example = deinit_net-init_net (net five) idle_server refl refl

-- From the tenth call on, accept fails.
refused : (t sock : ℕ) → 10 ≤ t → is_neg ((net five).accept t sock) ≡ true
refused t sock h = let e : ltb t 10 ≡ false = ground arith in rw e refl

accept_single_connection-IsReady_example :
    Returns
      (accept_single_connection (system five) 11 ready_server)
      (λ out. IsReady out.1 × (is_neg out.1.cli_sock ≡ true))
accept_single_connection-IsReady_example =
    accept_single_connection-IsReady (system five) (λ ctx. disk) disk 10 11 ready_server
      (system-IsSys five) ready_server-IsReady closed (λ u at v on. no_deinit v.clock v.cli_sock)
      refused (omega arith)
