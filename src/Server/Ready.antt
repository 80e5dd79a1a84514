-- ===== src/Server/Ready.antt =====
-- server/src/main.c: the commands of a session whose pool is ready, one by one and in the loop of
-- receive_commands.
use psvemmc.Base.{
  Exec, pure, ℕ, zero, suc, ◌-◌, ◌≤◌, ◌<◌, ◌≡◌, ◌≢◌, refl, ap, true, false, Option, none, some,
  arith, not_pos, neg, Returns, Returns-if, Returns-mono, branch-Returns, Returns-bind,
  Returns-done, done, Bool, ◌∙◌,
}
use native.Mathlib.Decide.{dec_lt}
use psvemmc.Driver.Reads.{Medium}
use psvemmc.Driver.Correct.{emmc, ms, gc}
use psvemmc.Server.State.{Server, Sys, delivered, send}
use psvemmc.Server.Receive.{after_recv}
use psvemmc.Server.Protocol.{Command, encode, blank, emmcproxy}
use psvemmc.Server.Handlers.{greet, reject}
use psvemmc.Server.Session.{IsSys, After, IsReady, Sent-After}
use psvemmc.Server.Safety.{
  read_sector_After, read_cluster_After, write_sector_After, write_cluster_After,
}
use psvemmc.Server.Loop.{handle, dispatch, receive_commands, received_command}

greet-After :
    (sys : Sys) (c : Command) (s : Server)
    → IsReady s
    → Returns (greet sys c s) (λ out. After s out.1)
unfolding send
greet-After sys c s f =
    let bytes = encode (record (blank c 10) { content = emmcproxy }) in
    Sent-After sys.net s s bytes _ f (omega arith) refl

reject-After :
    (sys : Sys) (c : Command) (s : Server)
    → IsReady s
    → Returns (reject sys c s) (λ out. After s out.1)
unfolding send
reject-After sys c s f =
    let bytes = encode (record (blank c 0) { vita_err = neg 2 }) in
    Sent-After sys.net s s bytes _ f (omega arith) refl

-- From a session whose pool is ready (the server's pool initialized, with its memory of the size of
-- a cluster below 2^32 bytes, and the driver's pool, if initialized, of the same size), every command
-- but deinit returns, whatever the client, the sockets, the devices and the kernel do within their
-- documented behaviour: no loop runs on, no memory outside the buffers is used, and the pool is ready
-- again after it.
pub handle_ready :
    (sys : Sys) (card : ℕ → Medium) (stick : Medium) (c : Command) (s : Server)
    → IsSys sys card stick
    → IsReady s
    → c ≢ Command.deinit
    → Returns (handle sys c s) (λ out. After s out.1)
unfolding handle
handle_ready sys card stick Command.ping s law f n = greet-After sys Command.ping s f
handle_ready sys card stick Command.term s law f n = greet-After sys Command.term s f
handle_ready sys card stick Command.init s law f n =
    Returns-if s.pool.initialized _ _ (λ out. After s out.1)
      (λ r. reject-After sys Command.init s f) (λ r. cc (f.ready))
handle_ready sys card stick Command.deinit s law f n = absurd (n refl)
handle_ready sys card stick Command.read_sector s law f n =
    read_sector_After sys card stick law s f emmc Command.read_sector
handle_ready sys card stick Command.read_cluster s law f n =
    read_cluster_After sys card stick law s f emmc Command.read_cluster
handle_ready sys card stick Command.write_sector s law f n =
    write_sector_After sys card stick law s f emmc Command.write_sector
handle_ready sys card stick Command.write_cluster s law f n =
    write_cluster_After sys card stick law s f emmc Command.write_cluster
handle_ready sys card stick Command.read_sector_ms s law f n =
    read_sector_After sys card stick law s f ms Command.read_sector_ms
handle_ready sys card stick Command.read_cluster_ms s law f n =
    read_cluster_After sys card stick law s f ms Command.read_cluster_ms
handle_ready sys card stick Command.write_sector_ms s law f n =
    write_sector_After sys card stick law s f ms Command.write_sector_ms
handle_ready sys card stick Command.write_cluster_ms s law f n =
    write_cluster_After sys card stick law s f ms Command.write_cluster_ms
handle_ready sys card stick Command.read_sector_gc s law f n =
    read_sector_After sys card stick law s f gc Command.read_sector_gc
handle_ready sys card stick Command.read_cluster_gc s law f n =
    read_cluster_After sys card stick law s f gc Command.read_cluster_gc
handle_ready sys card stick Command.write_sector_gc s law f n =
    write_sector_After sys card stick law s f gc Command.write_sector_gc
handle_ready sys card stick Command.write_cluster_gc s law f n =
    write_cluster_After sys card stick law s f gc Command.write_cluster_gc

dispatch-IsReady :
    (sys : Sys) (card : ℕ → Medium) (stick : Medium) (c : Option Command) (s : Server)
    → IsSys sys card stick
    → IsReady s
    → c ≢ some Command.deinit
    → Returns (dispatch sys c s) (λ out. IsReady out.1 × (s.clock ≤ out.1.clock))
unfolding dispatch
dispatch-IsReady sys card stick none s law f n = (f, omega arith)
dispatch-IsReady sys card stick (some c) s law f n =
    Returns-bind (handle sys c) _ s (λ out. After s out.1) _
      (handle_ready sys card stick c s law f (λ e. n (ap some e))) (λ r s' h. (h.0, omega arith))

-- The states in which a session that starts in `s` waits for a command: at the start, and whenever the
-- command that came was served and the loop goes on.
pub data Awaits (sys : Sys) (s : Server) : Server → Type 0 where
  begins : Awaits sys s s
  served :
      {u v : Server}
      → Awaits sys s u
      → dispatch sys
          (received_command (sys.net.recv u.clock u.cli_sock 4).1)
          (after_recv u (delivered (sys.net.recv u.clock u.cli_sock 4)) (suc u.clock))
        ≡ done (true, v)
      → Awaits sys s v

-- No command of the session is deinit.
abbrev pub NoDeinit : Sys → Server → Type 0
NoDeinit sys s =
    (u : Server)
    → Awaits sys s u
    → received_command (sys.net.recv u.clock u.cli_sock 4).1 ≢ some Command.deinit

-- The session from one of its states on.
session_lem :
    (sys : Sys) (card : ℕ → Medium) (stick : Medium) (last fuel : ℕ) (s0 s : Server)
    → IsSys sys card stick
    → IsReady s
    → ((t sock : ℕ) → last ≤ t → not_pos (sys.net.recv t sock 4).0 ≡ true)
    → NoDeinit sys s0
    → Awaits sys s0 s
    → last - s.clock < fuel
    → Returns (receive_commands sys fuel s) (λ out. IsReady out.1 × (s.clock < out.1.clock))
unfolding receive_commands
session_lem sys card stick last zero s0 s law f closed no_deinit at enough = absurd (omega arith)
session_lem sys card stick last (suc fuel) s0 s law f closed no_deinit at enough =
    let got = sys.net.recv s.clock s.cli_sock 4 in
    let s1 = after_recv s (delivered got) (suc s.clock) in
    let round = dispatch sys (received_command got.1) in
    let Q : Unit {0} × Server → Type 0 = λ out. IsReady out.1 × (s.clock < out.1.clock) in
    let P : Bool × Server → Type 0 = λ out. IsReady out.1 × (s1.clock ≤ out.1.clock) in
    branch-Returns (not_pos got.0) _ _ s1 Q (λ stop. (f, omega arith))
      (λ more.
        let early : s.clock < last = before last s.clock s.cli_sock more closed in
        Returns-bind round _ s1 (λ out. P out × (round s1 ≡ done out)) Q
          (Returns-done (round s1) P
            (dispatch-IsReady sys card stick (received_command got.1) s1 law f (no_deinit s at)))
          (λ b s' h. go_on b s' h.0.0 (omega (arith, h.0.1)) (λ b_true.
            Returns-mono (receive_commands sys fuel s')
              (λ out. IsReady out.1 × (s'.clock < out.1.clock)) Q
              (λ out k. (k.0, omega (arith, k.1, h.0.1)))
              (session_lem sys card stick last fuel s0 s' law h.0.0 closed no_deinit
                (served at (h.1 ∙ ap (λ x. done (x, s')) b_true)) (omega (arith, h.0.1))))))
  where
    go_on :
        (b : Bool) (s' : Server)
        → IsReady s'
        → s.clock < s'.clock
        → (b ≡ true
            → Returns
                (receive_commands sys fuel s')
                (λ out. IsReady out.1 × (s.clock < out.1.clock)))
        → Returns
            ((elim b as (λ x. Exec Server (Unit {0})) [
              | true ↦ receive_commands sys fuel
              | false ↦ pure tt
            ])
              s')
            (λ out. IsReady out.1 × (s.clock < out.1.clock))
    go_on true s' r l rest = rest refl
    go_on false s' r l rest = (r, l)

    before :
        (last t sock : ℕ)
        → not_pos (sys.net.recv t sock 4).0 ≡ false
        → ((t sock : ℕ) → last ≤ t → not_pos (sys.net.recv t sock 4).0 ≡ true)
        → t < last
    before last t sock more closed = elim (dec_lt t last) [
      | yes p ↦ p
      | no p ↦ cc (more, closed t sock (omega arith))
    ]

-- Once the connection is closed or broken for good, and if none of the commands that the session
-- receives is deinit, the loop of receive_commands ends: it needs no more rounds than calls of the
-- sockets remain until then, and the pool is still ready. Until then the client may send any other
-- commands, and any numbers and bytes behind them.
pub receive_commands-IsReady :
    (sys : Sys) (card : ℕ → Medium) (stick : Medium) (last fuel : ℕ) (s : Server)
    → IsSys sys card stick
    → IsReady s
    → ((t sock : ℕ) → last ≤ t → not_pos (sys.net.recv t sock 4).0 ≡ true)
    → NoDeinit sys s
    → last - s.clock < fuel
    → Returns (receive_commands sys fuel s) (λ out. IsReady out.1 × (s.clock < out.1.clock))
receive_commands-IsReady sys card stick last fuel s law f closed no_deinit enough =
    session_lem sys card stick last fuel s s law f closed no_deinit begins enough
