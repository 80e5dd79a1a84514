-- ===== src/Server/Sectors.antt =====
-- server/src/main.c: the handlers that read or write a sector.
use psvemmc.Base.{
  ℕ, suc, ◌+◌, ◌≤◌, ◌<◌, ◌≡◌, ◌⊎◌, inl, inr, refl, List, arith, ◌==◌, neg, length, of_bytes, take,
  drop, replicate, overwrite, length-overwrite, length-replicate, Returns, Returns-mono,
  guard-Returns, ==→ne, ==→eq,
}
use psvemmc.Driver.{Driver, Reply}
use psvemmc.Server.State.{Net, Server, Sys, send, delivered}
use psvemmc.Server.Transfer.{IsNet, Sends, send_whole}
use psvemmc.Server.Receive.{after_recv}
use psvemmc.Server.Steps.{in_driver-bind, copy_into-bind, Sent, recv_all-bind}
use psvemmc.Server.Protocol.{Command, Response, encode, blank}
use psvemmc.Server.Handlers.{Read, Write, handle_read_sector, handle_write_sector, refuse}

-- The server once the number of a request has come.
abbrev pub requested : Net → Server → Server
requested net s = after_recv s (delivered (net.recv s.clock s.cli_sock 4)) (suc s.clock)

abbrev pub number : Net → Server → ℕ × List ℕ
number net s = net.recv s.clock s.cli_sock 4

-- One call of `send` with the response that the request did not come, and the result -1.
abbrev pub Refused : Net → Server → Command → ℕ → ℕ × Server → Type 0
Refused net s c size out =
    (out.0 ≡ neg 1) × Sent net s (encode (record (blank c size) { vita_err = neg 1 })) out.1

-- The number did not come whole.
abbrev pub Refuses : Net → Server → Command → ℕ → ℕ × Server → Type 0
Refuses net s c size out = ((number net s).0 ≡ 4 → ⊥) × Refused net (requested net s) c size out

abbrev pub sector_response : Command → Reply → Response
sector_response c reply = record (blank c 512) {
  proxy_err = reply.0;
  content = overwrite (replicate 512 0) reply.1;
}

-- The driver ran on the number that came, and its result and bytes went into the response.
abbrev pub SectorSent : Net → Server → Command → (ℕ → Reply × Driver → Type 0) → ℕ × Server → Type 0
SectorSent net s c R out =
    (reply : Reply) × (d : Driver) × ((number net s).0 ≡ 4)
    × R (of_bytes (number net s).1) (reply, d)
    × Sends net (record (requested net s) { driver = d }) (encode (sector_response c reply)) out

length-response : (c : Command) (reply : Reply) → length (encode (sector_response c reply)) ≡ 524
length-response c reply =
    omega (arith, length-overwrite (replicate 512 0) reply.1, length-replicate 512 (◌+◌ 0 0))

module _ (sys : Sys) where
  pub refuse_lem :
      (c : Command) (size : ℕ) (s : Server)
      → Returns (refuse sys c size s) (Refused sys.net s c size)
  unfolding send
  refuse_lem c size s = (refl, refl)

module _ (sys : Sys) (law : IsNet sys.net) where
  pub handle_read_sector_lem :
      (c : Command) (read : Read) (R : ℕ → Reply × Driver → Type 0) (s : Server)
      → ((i : ℕ) → Returns (read i s.driver) (R i))
      → ((i : ℕ) (out : Reply × Driver) → R i out → length out.0.1 ≤ 512)
      → Returns
          (handle_read_sector sys c read s)
          (λ out. Refuses sys.net s c 512 out ⊎ SectorSent sys.net s c R out)
  unfolding handle_read_sector
  handle_read_sector_lem c read R s reads short =
      let got = number sys.net s in
      let i = of_bytes got.1 in
      let s1 = requested sys.net s in
      let Q : ℕ × Server → Type 0 =
        λ out. Refuses sys.net s c 512 out ⊎ SectorSent sys.net s c R out in
      guard-Returns (got.0 == 4) _ _ s1 Q
        (λ no.
          Returns-mono (refuse sys c 512 s1) (Refused sys.net s1 c 512) Q
            (λ out h. inl (==→ne _ 4 no, h)) (refuse_lem sys c 512 s1))
        (λ yes. in_driver-bind (read i) _ s1 (R i) Q (reads i) (λ reply d h.
          copy_into-bind (replicate 512 0) reply.1 _ (record s1 { driver = d }) Q
            (omega (arith, length-replicate 512 (◌+◌ 0 0), short i (reply, d) h))
            (Returns-mono _ _ Q (λ out p. inr (reply, d, ==→eq _ 4 yes, h, p))
              (send_whole sys.net (encode (sector_response c reply)) 524 (record s1 { driver = d })
                law (omega arith) (length-response c reply)))))

-- The whole request of a write came, and its response was sent, whatever the driver returned.
abbrev pub SectorWritten : Net → Server → Command → Write → ℕ × Server → Type 0
SectorWritten net s c write out =
    (bytes : List ℕ) × (t : ℕ) × (length bytes ≡ 516)
    × (s.clock ≤ t)
    × Sent net
        (record (after_recv s bytes t) {
          driver = (write (of_bytes (take 4 bytes)) (drop 4 bytes) s.driver).1;
        })
        (encode (record (blank c 0) {
          proxy_err = (write (of_bytes (take 4 bytes)) (drop 4 bytes) s.driver).0;
        }))
        out.1

-- Only a part of the request came.
abbrev pub SectorCut : Net → Server → Command → ℕ × Server → Type 0
SectorCut net s c out =
    (bytes : List ℕ) × (t : ℕ) × (length bytes < 516)
    × (s.clock ≤ t)
    × Refused net (after_recv s bytes t) c 0 out

module _ (sys : Sys) (law : IsNet sys.net) where
  pub handle_write_sector_lem :
      (c : Command) (write : Write) (s : Server)
      → length (sys.local_bytes s.clock 516) ≡ 516
      → Returns
          (handle_write_sector sys c write s)
          (λ out. SectorCut sys.net s c out ⊎ SectorWritten sys.net s c write out)
  unfolding handle_write_sector
  handle_write_sector_lem c write s l =
      let buffer = sys.local_bytes s.clock 516 in
      let Q : ℕ × Server → Type 0 =
        λ out. SectorCut sys.net s c out ⊎ SectorWritten sys.net s c write out in
      recv_all-bind sys.net law buffer 516 _ s Q (omega arith) l
        (λ bytes t e later. inr (bytes, t, e, later, refl))
        (λ bytes t e later.
          let s1 = after_recv s bytes t in
          Returns-mono (refuse sys c 0 s1) (Refused sys.net s1 c 0) Q
            (λ out h. inl (bytes, t, e, later, h)) (refuse_lem sys c 0 s1))
