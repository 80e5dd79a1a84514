-- ===== src/Server/Sockets.antt =====
-- server/src/main.c: which sockets init_net, deinit_net and accept_single_connection leave open.
use psvemmc.Base.{
  ℕ, zero, suc, ◌-◌, ◌≤◌, ◌<◌, ◌≡◌, inl, inr, refl, true, false, List, [], ◌∷◌, ◌++◌, arith,
  if◌then◌else◌, ◌==◌, is_neg, not_pos, Returns, Returns-mono, subst, Returns-bind, Returns-done,
  done, branch-Returns, Bool-cases, ==→eq, sym, ◌∙◌, append-nil, append_assoc,
}
use native.Mathlib.Decide.{dec_lt}
use psvemmc.Driver.Reads.{Medium}
use psvemmc.Server.State.{Net, Sys, Server, tick}
use psvemmc.Server.Connections.{
  allocate, listen_on, init_net, close_client, close_server, deinit_net, accept_single_connection,
  set_cli_sock, set_emmc_sock,
}
use psvemmc.Server.Loop.{receive_commands}
use psvemmc.Server.Session.{IsSys, IsReady}
use psvemmc.Server.Ready.{NoDeinit, receive_commands-IsReady}

-- Nothing is held: no socket, no memory, and the sockets that were closed.
abbrev pub Released : Server → List ℕ → Type 0
Released s closed =
    (s.emmc_sock ≡ 0) × (s.cli_sock ≡ 0) × (s.net_memory ≡ false) × (s.closed ≡ closed)

-- What deinit_net closes: the client's socket, if there is one, and then the server's.
abbrev pub held : Server → List ℕ
held s =
    (if s.cli_sock == 0 then [] else (s.cli_sock ∷ []))
    ++ (if s.emmc_sock == 0 then [] else (s.emmc_sock ∷ []))

close_server_lem :
    (s : Server)
    → ((close_server s).emmc_sock ≡ 0)
      × ((close_server s).cli_sock ≡ s.cli_sock)
      × ((close_server s).closed
          ≡ s.closed ++ (if s.emmc_sock == 0 then [] else (s.emmc_sock ∷ [])))
unfolding close_server
close_server_lem s = elim (Bool-cases (s.emmc_sock == 0)) [
  | inl e ↦ rw e (==→eq s.emmc_sock 0 e, refl, sym (append-nil s.closed))
  | inr e ↦ rw e (refl, refl, refl)
]

close_client_lem :
    (s : Server)
    → ((close_client s).cli_sock ≡ 0)
      × ((close_client s).emmc_sock ≡ s.emmc_sock)
      × ((close_client s).closed ≡ s.closed ++ (if s.cli_sock == 0 then [] else (s.cli_sock ∷ [])))
unfolding close_client
close_client_lem s = elim (Bool-cases (s.cli_sock == 0)) [
  | inl e ↦ rw e (==→eq s.cli_sock 0 e, refl, sym (append-nil s.closed))
  | inr e ↦ rw e (refl, refl, refl)
]

pub deinit_net_lem : (s : Server) → Released (deinit_net s) (s.closed ++ held s)
unfolding deinit_net
deinit_net_lem s =
    let c = close_client_lem s in
    let e = close_server_lem (close_client s) in
    (
      e.0,
      e.1 ∙ c.0,
      refl,
      e.2
          ∙ rw (c.1, c.2)
              (append_assoc s.closed (if s.cli_sock == 0 then [] else (s.cli_sock ∷ []))
                (if s.emmc_sock == 0 then [] else (s.emmc_sock ∷ []))),
    )

-- The steps behind the socket change only the clock.
abbrev Kept : Server → ℕ × Server → Type 0
Kept s out =
    (out.1.cli_sock ≡ s.cli_sock) × (out.1.closed ≡ s.closed) × (out.1.emmc_sock ≡ s.emmc_sock)

-- What sceNetSocket gives to init_net, or 0 where sceNetCtlInit fails and no socket is asked for.
abbrev pub new_socket : Net → Server → ℕ
new_socket net s =
    let t = (allocate net s).clock in if is_neg (net.ctl_init t) then 0 else net.socket (suc t)

listen_on_lem : (net : Net) (sock : ℕ) (s : Server) → Returns (listen_on net sock s) (Kept s)
unfolding listen_on
listen_on_lem net sock s =
    branch-Returns (is_neg (net.bind s.clock sock)) _ _ (tick s) (Kept s) (λ e. (refl, refl, refl))
      (λ e.
        branch-Returns (is_neg (net.get_info (suc s.clock))) _ _ (tick (tick s)) (Kept s)
          (λ e. (refl, refl, refl))
          (λ e.
            branch-Returns (is_neg (net.listen (suc (suc s.clock)) sock)) _ _ (tick (tick (tick s)))
              (Kept s) (λ e. (refl, refl, refl)) (λ e. (refl, refl, refl))))

allocate_lem :
    (net : Net) (s : Server)
    → ((allocate net s).cli_sock ≡ s.cli_sock)
      × ((allocate net s).closed ≡ s.closed)
      × ((allocate net s).emmc_sock ≡ s.emmc_sock)
unfolding allocate
allocate_lem net s = elim (Bool-cases (net.not_initialized s.clock)) [
  | inl e ↦ rw e (refl, refl, refl)
  | inr e ↦ rw e (refl, refl, refl)
]

-- The socket that sceNetSocket gave is kept.
abbrev Opened : Net → Server → ℕ × Server → Type 0
Opened net s out =
    (out.1.cli_sock ≡ s.cli_sock) × (out.1.closed ≡ s.closed) × (out.1.emmc_sock ≡ new_socket net s)

init_net_lem : (net : Net) (s : Server) → s.emmc_sock ≡ 0 → Returns (init_net net s) (Opened net s)
unfolding init_net
init_net_lem net s z =
    let s1 = allocate net s in
    let a = allocate_lem net s in
    let sock = net.socket (suc s1.clock) in
    let s2 = set_emmc_sock sock (tick (tick s1)) in
    branch-Returns (is_neg (net.ctl_init s1.clock)) _ _ (tick s1) (Opened net s)
      (λ e. (a.0, a.1, rw e (a.2 ∙ z)))
      (λ c.
        branch-Returns (is_neg sock) _ _ s2 (Opened net s) (λ e. (a.0, a.1, rw c refl))
          (λ e.
            Returns-mono (listen_on net sock s2) (Kept s2) (Opened net s)
              (λ out h. (h.0 ∙ a.0, h.1 ∙ a.1, h.2 ∙ rw c refl)) (listen_on_lem net sock s2)))

-- Whichever step of init_net fails, or none, on a server that holds no socket, deinit_net behind it
-- leaves no socket and no memory: it closes what sceNetSocket gave, once, if it was asked for a socket
-- and did not give 0, and nothing else. (An error code that stands in the place of a socket is closed,
-- too.)
pub deinit_net-init_net :
    (net : Net) (s : Server)
    → s.cli_sock ≡ 0
    → s.emmc_sock ≡ 0
    → Returns (init_net net s) (λ out.
      Released
        (deinit_net out.1)
        (s.closed ++ (if new_socket net s == 0 then [] else (new_socket net s ∷ []))))
deinit_net-init_net net s e z =
    Returns-mono (init_net net s) (Opened net s) _ (λ out k. released out k) (init_net_lem net s z)
  where
    released :
        (out : ℕ × Server)
        → Opened net s out
        → Released
            (deinit_net out.1)
            (s.closed ++ (if new_socket net s == 0 then [] else (new_socket net s ∷ [])))
    released out (c, h, o) =
        subst (λ closed. Released (deinit_net out.1) closed) (rw (h, c ∙ e, o) refl)
          (deinit_net_lem out.1)

close_client-IsReady :
    (s : Server) → IsReady s → IsReady (close_client s) × (s.clock ≤ (close_client s).clock)
unfolding close_client
close_client-IsReady s f = elim (Bool-cases (s.cli_sock == 0)) [
  | inl e ↦ rw e (f, omega arith)
  | inr e ↦ rw e (f, omega arith)
]

-- The server with the socket that accept gave.
abbrev pub connected : Sys → Server → Server
connected sys s = set_cli_sock (sys.net.accept s.clock s.emmc_sock) (tick s)

-- The states in which the loop that starts in `s` waits for a client: at the start, and whenever a
-- session ended and its socket is closed.
pub data Accepts (sys : Sys) (s : Server) : Server → Type 0 where
  begins : Accepts sys s s
  left :
      {u v : Server} (fuel : ℕ)
      → Accepts sys s u
      → receive_commands sys fuel (connected sys u) ≡ done (tt, v)
      → Accepts sys s (close_client v)

accepting_lem :
    (sys : Sys) (card : ℕ → Medium) (stick : Medium) (last fuel : ℕ) (s0 s : Server)
    → IsSys sys card stick
    → IsReady s
    → ((t sock : ℕ) → last ≤ t → not_pos (sys.net.recv t sock 4).0 ≡ true)
    → ((u : Server) → Accepts sys s0 u → NoDeinit sys (connected sys u))
    → ((t sock : ℕ) → last ≤ t → is_neg (sys.net.accept t sock) ≡ true)
    → Accepts sys s0 s
    → last - s.clock < fuel
    → Returns
        (accept_single_connection sys fuel s)
        (λ out. IsReady out.1 × (is_neg out.1.cli_sock ≡ true))
unfolding accept_single_connection
accepting_lem sys card stick last zero s0 s law f closed no_deinit refused at enough =
    absurd (omega arith)
accepting_lem sys card stick last (suc fuel) s0 s law f closed no_deinit refused at enough =
    let s1 = connected sys s in
    let session = receive_commands sys fuel in
    let Q : Unit {0} × Server → Type 0 = λ out. IsReady out.1 × (is_neg out.1.cli_sock ≡ true) in
    let P : Unit {0} × Server → Type 0 = λ out. IsReady out.1 × (s1.clock < out.1.clock) in
    branch-Returns (is_neg s1.cli_sock) _ _ s1 Q (λ e. (f, e))
      (λ good.
        let early : s.clock < last = before good in
        Returns-bind session _ s1 (λ out. P out × (session s1 ≡ done out)) Q
          (Returns-done (session s1) P (
            receive_commands-IsReady sys card stick last fuel s1 law f closed (no_deinit s at)
              (omega arith)))
          (λ u s' h.
            let c = close_client-IsReady s' h.0.0 in
            accepting_lem sys card stick last fuel s0 (close_client s') law c.0 closed no_deinit
              refused (left fuel at h.1) (omega (arith, c.1, h.0.1))))
  where
    before : is_neg (sys.net.accept s.clock s.emmc_sock) ≡ false → s.clock < last
    before good = elim (dec_lt s.clock last) [
      | yes p ↦ p
      | no p ↦ cc (good, refused s.clock s.emmc_sock (omega arith))
    ]

-- The loop of main that accepts clients, in a ready session: once accept fails for good and the
-- connections are broken, it ends, if no command that any of the sessions receives is deinit, with the
-- pool ready; it needs no more rounds than calls remain until then. Until then each client may send any
-- other commands, and any numbers and bytes behind them. _cli_sock then holds the error code of accept.
pub accept_single_connection-IsReady :
    (sys : Sys) (card : ℕ → Medium) (stick : Medium) (last fuel : ℕ) (s : Server)
    → IsSys sys card stick
    → IsReady s
    → ((t sock : ℕ) → last ≤ t → not_pos (sys.net.recv t sock 4).0 ≡ true)
    → ((u : Server) → Accepts sys s u → NoDeinit sys (connected sys u))
    → ((t sock : ℕ) → last ≤ t → is_neg (sys.net.accept t sock) ≡ true)
    → last - s.clock < fuel
    → Returns
        (accept_single_connection sys fuel s)
        (λ out. IsReady out.1 × (is_neg out.1.cli_sock ≡ true))
accept_single_connection-IsReady sys card stick last fuel s law f closed no_deinit refused enough =
    accepting_lem sys card stick last fuel s s law f closed no_deinit refused Accepts.begins enough
