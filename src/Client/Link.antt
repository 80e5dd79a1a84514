-- ===== src/Client/Link.antt =====
-- client/psvemmc/psvemmc.cpp with server/src/main.c and driver/psvemmc.c: the read of a sector from the
-- client's call to the medium and back.
use mathlib.Core.List.{append_cancel_left}
use psvemmc.Base.{
  ℕ, ◌<◌, ◌≡◌, ◌⊎◌, inl, inr, refl, ap, sym, subst, ◌∙◌, Bool, true, false, List, ◌++◌, arith, not,
  ◌==◌, ◌||◌, is_neg, word, length, take, take_all, drop, replicate, overwrite_all,
  length-overwrite, length-replicate, le32, of_bytes, of_bytes-le32, Outcome, eq→==, done, Returns,
  Returns-mono,
}
use psvemmc.Driver.{Driver, Reply}
use psvemmc.Driver.Reads.{Medium}
use psvemmc.Driver.Correct.{Device, emmc, ms, gc, sector_read, SectorRead, sector_read_lem}
use psvemmc.Server.State.{Net, Server, Sys}
use psvemmc.Server.Transfer.{Sends}
use psvemmc.Server.Protocol.{Command, Response, code, encode}
use psvemmc.Server.Wire.{parse, parse-encode}
use psvemmc.Server.Sectors.{Refuses, SectorSent, sector_response, handle_read_sector_lem}
use psvemmc.Server.Loop.{handle}
use psvemmc.Server.Session.{IsSys, IsReady, medium}
use psvemmc.Server.Safety.{card_of, reads_of, SectorRead-length}
use psvemmc.Server.Answers.{reading_sector, handle-reading_sector}
use psvemmc.Client.State.{Peer, Client, IsPeer, answers}
use psvemmc.Client.Commands.{below_zero, is_bad_read, emmc_read_sector_by}
use psvemmc.Client.Receive.{Failure}
use psvemmc.Client.Exchange.{GivenUp}
use psvemmc.Client.Reads.{SectorGot, emmc_read_sector_by_lem}

-- The driver's function ran so, on one of its branches.
abbrev pub Read : Sys → (ℕ → Medium) → Medium → Device → Server → ℕ → Reply × Driver → Type 0
Read sys card stick dev s i out =
    (sector_read sys.kernel dev i s.driver ≡ done out)
    × SectorRead sys.kernel dev (medium card stick dev s.driver) i s.driver out

-- The client has the sector, and the driver had read it; or it has -1 and its array is as it was,
-- since the driver returned an error, or a call of the client's socket failed.
abbrev pub EndToEnd :
    Sys
    → (ℕ → Medium)
    → Medium
    → Device
    → Server
    → Peer
    → ℕ
    → List ℕ
    → Client
    → (ℕ × List ℕ) × Client
    → Type 0
EndToEnd sys card stick dev s peer i result c out =
    (out.0 ≡ (0, medium card stick dev s.driver i))
    ⊎ ((out.0.1 ≡ result)
        × GivenUp c out.0.0 out.1
        × (((reply : Reply) × (d : Driver) × (sector_read sys.kernel dev i s.driver
                ≡ done (reply, d))
              × (is_neg reply.0 ≡ true))
            ⊎ Failure peer))

Returns-run :
    {A : Type 0} (o : Outcome A) (Q : A → Type 0)
    → Returns o Q
    → Returns o (λ a. (o ≡ done a) × Q a)
Returns-run (done a) Q h = (refl, h)
Returns-run Outcome.invalid_access Q h = h
Returns-run Outcome.out_of_fuel Q h = h

-- The client's test of a response to a read that has the command's code is that of the driver's
-- result: the server's own result is not looked at.
pub is_bad_read-parse :
    (c : Command) (r : Response)
    → r.command ≡ code c
    → code c < word
    → r.vita_err < word
    → r.proxy_err < word
    → is_bad_read c (parse (encode r)) ≡ not (r.proxy_err == 0)
is_bad_read-parse c r e w v p =
    ap (λ x. is_bad_read c x) (parse-encode r (omega arith) v p).0
    ∙ tests (r.command == code c) (below_zero r.vita_err) (r.proxy_err == 0) (eq→== _ _ e)
        (never r.vita_err)
  where
    tests : (a b d : Bool) → a ≡ true → b ≡ false → (not a || b || not d) ≡ not d
    tests a b d x y = rw (x, y) refl

    never : (n : ℕ) → below_zero n ≡ false
    never n = ground arith

pub code_of_read : (dev : Device) → code (reading_sector dev) < word
code_of_read emmc = omega arith
code_of_read ms = omega arith
code_of_read gc = omega arith

-- The driver's result and bytes, whatever the branch.
SectorRead-Replies :
    (sys : Sys) (dev : Device) (disk : Medium) (i : ℕ) (d : Driver) (out : Reply × Driver)
    → SectorRead sys.kernel dev disk i d out
    → ((out.0.0 ≡ 0) × (out.0.1 ≡ disk i)) ⊎ ((is_neg out.0.0 ≡ true) × (out.0.0 < word))
SectorRead-Replies sys dev disk i d out (inl (shut, e)) = rw e (inr (refl, omega arith))
SectorRead-Replies sys dev disk i d out (inr (o, (inl h, k, _))) = inl h
SectorRead-Replies sys dev disk i d out (inr (o, (inr (a, b, _), k, _))) = inr (a, b)

-- A response was sent in full, so it is what the client can read.
Sends-all :
    (net : Net) (s s' : Server) (bytes there : List ℕ)
    → Sends net s bytes (0, s')
    → s'.sent ≡ s.sent ++ there
    → there ≡ bytes
Sends-all net s s' bytes there (n, t, e, late, inr (x, _, _)) linked = absurd (omega (arith, x))
Sends-all net s s' bytes there (n, t, e, late, inl (_, x)) linked =
    append_cancel_left s.sent there bytes
      (sym linked ∙ ap (λ z. z.sent) e ∙ ap (λ z. s.sent ++ z) (take_all n bytes (omega arith)))

-- What the client makes of the response of a server whose driver gave `reply`.
SectorGot-EndToEnd :
    (sys : Sys) (card : ℕ → Medium) (stick : Medium) (dev : Device) (s : Server) (peer : Peer)
    (i : ℕ) (result : List ℕ) (c : Client) (reply : Reply) (d : Driver)
    (out : (ℕ × List ℕ) × Client)
    → length (medium card stick dev s.driver i) ≡ 512
    → sector_read sys.kernel dev i s.driver ≡ done (reply, d)
    → ((reply.0 ≡ 0) × (reply.1 ≡ medium card stick dev s.driver i))
      ⊎ ((is_neg reply.0 ≡ true) × (reply.0 < word))
    → SectorGot peer
        (reading_sector dev)
        result
        (encode (sector_response (reading_sector dev) reply))
        c
        out
    → EndToEnd sys card stick dev s peer i result c out
SectorGot-EndToEnd sys card stick dev s peer i result c reply d out l run read got = choose read got
  where
    cmd : Command
    cmd = reading_sector dev

    response : Response
    response = sector_response cmd reply

    size : length (encode response) ≡ 524
    size = omega (arith, length-overwrite (replicate 512 0) reply.1, length-replicate {A = ℕ} 512 0)

    test :
        reply.0 < word → is_bad_read cmd (parse (take 524 (encode response))) ≡ not (reply.0 == 0)
    test w =
        ap (λ x. is_bad_read cmd (parse x)) (take_all 524 (encode response) (omega (arith, size)))
        ∙ is_bad_read-parse cmd response refl (code_of_read dev) (omega arith) w

    choose :
        ((reply.0 ≡ 0) × (reply.1 ≡ medium card stick dev s.driver i))
          ⊎ ((is_neg reply.0 ≡ true) × (reply.0 < word))
        → SectorGot peer cmd result (encode response) c out
        → EndToEnd sys card stick dev s peer i result c out
    choose (inl (z, e)) (inl (good, r, _)) = inl (
        r
        ∙ ap (λ x. (0, drop 12 x)) (take_all 524 (encode response) (omega (arith, size)))
        ∙ ap (λ x. (0, x)) (overwrite_all (replicate 512 0) reply.1 (ap (λ x. length x) e ∙ l) ∙ e))
    choose (inr (bad, w)) (inl (good, _, _)) =
        let k : not (reply.0 == 0) ≡ false = sym (test w) ∙ good in absurd (ground arith)
    choose (inl (z, e)) (inr (left, gave, inl bad)) =
        let k : not (reply.0 == 0) ≡ true = sym (test (omega arith)) ∙ bad in absurd (ground arith)
    choose (inr (bad, w)) (inr (left, gave, inl seen)) = inr (left, gave, inl (reply, d, run, bad))
    choose read (inr (left, gave, inr why)) = inr (left, gave, inr why)

module _ (sys : Sys) (card : ℕ → Medium) (stick : Medium) (law : IsSys sys card stick) where
  -- The client, the server and the driver together: when the server, in a session whose pool is
  -- ready, gets the number of a sector whole and its handler returns 0, and the client can read
  -- exactly what that handler sent, then emmc_read_sector returns, and either it has the result
  -- 0 and the sector of the medium with that number, or the result -1 and an array that is left,
  -- and the latter only if the driver returned a negative error or a call of the socket of the
  -- client failed.
  pub emmc_read_sector_by-handle :
      (peer : Peer) (dev : Device) (s s' : Server) (i : ℕ) (result : List ℕ) (c : Client)
      → IsPeer peer
      → IsReady s
      → i < word
      → length result ≡ 512
      → sys.net.recv s.clock s.cli_sock 4 ≡ (4, le32 i)
      → handle sys (reading_sector dev) s ≡ done (0, s')
      → s'.sent ≡ s.sent ++ answers peer c (le32 (code (reading_sector dev)) ++ le32 i)
      → Returns
          (emmc_read_sector_by peer (reading_sector dev) i result c)
          (EndToEnd sys card stick dev s peer i result c)
  emmc_read_sector_by-handle peer dev s s' i result c plaw ready w l came ran linked = go (
      subst (λ o. Returns o Answer) (sym (ap (λ f. f s) (handle-reading_sector sys dev)) ∙ ran)
        (handle_read_sector_lem sys law.net_law (reading_sector dev) (sector_read sys.kernel dev)
          (Read sys card stick dev s) s
          (λ k. Returns-run _ _ (
            sector_read_lem sys.kernel dev (medium card stick dev s.driver) k s.driver
              law.kernel_law (card_of sys card stick law s ready dev)
              (reads_of sys card stick law s ready dev)))
          (λ k out h.
            SectorRead-length sys.kernel dev (medium card stick dev s.driver) k s.driver out
              (card_of sys card stick law s ready dev) h.1)))
    where
      there : List ℕ
      there = answers peer c (le32 (code (reading_sector dev)) ++ le32 i)

      Answer : ℕ × Server → Type 0
      Answer out =
          Refuses sys.net s (reading_sector dev) 512 out
          ⊎ SectorSent sys.net s (reading_sector dev) (Read sys card stick dev s) out

      go :
          Answer (0, s')
          → Returns
              (emmc_read_sector_by peer (reading_sector dev) i result c)
              (EndToEnd sys card stick dev s peer i result c)
      go (inl (cut, h)) = absurd (cut (ap (λ p. p.0) came))
      go (inr (reply, d, four, (run, read), sends)) =
          let bytes = encode (sector_response (reading_sector dev) reply) in
          let whole : there ≡ bytes = Sends-all sys.net _ s' bytes there sends linked in
          let size : length bytes ≡ 524 =
            omega
              (arith, length-overwrite (replicate 512 0) reply.1, length-replicate {A = ℕ} 512 0) in
          let asked : of_bytes (sys.net.recv s.clock s.cli_sock 4).1 ≡ i =
            ap (λ p. of_bytes p.1) came ∙ of_bytes-le32 i w in
          Returns-mono (emmc_read_sector_by peer (reading_sector dev) i result c)
            (SectorGot peer (reading_sector dev) result there c) _
            (λ out got.
              SectorGot-EndToEnd sys card stick dev s peer i result c reply d out
                ((card_of sys card stick law s ready dev).sector_size i)
                (subst (λ n. sector_read sys.kernel dev n s.driver ≡ done (reply, d)) asked run)
                (SectorRead-Replies sys dev (medium card stick dev s.driver) i s.driver (reply, d)
                  (subst
                    (λ n.
                      SectorRead sys.kernel dev (medium card stick dev s.driver) n s.driver
                        (reply, d))
                    asked read))
                (subst (λ x. SectorGot peer (reading_sector dev) result x c out) whole got))
            (emmc_read_sector_by_lem peer plaw (reading_sector dev) i result c l
              (rw whole (omega (arith, size))))
