-- ===== src/Client/Service.antt =====
-- client/psvemmc with server/src/main.c: a server that answers, over a connection that stays.
use psvemmc.Base.{
  ℕ, ◌≤◌, ◌<◌, ◌≡◌, ◌≢◌, inl, inr, ap, ◌∙◌, List, [], ◌++◌, arith, mul32, word, length, take,
  take_all, le32,
}
use psvemmc.Driver.Reads.{Medium, IsMedium, sectors}
use psvemmc.Driver.Correct.{Device, emmc, ms, gc}
use psvemmc.Server.Protocol.{Command, code, encode, blank, emmcproxy}
use psvemmc.Server.Answers.{reading_sector, reading_cluster}
use psvemmc.Client.State.{Peer, Client, IsPeer, socket_error, moved, answers}
use psvemmc.Client.Receive.{Failure}

-- DUMP_MODE_EMMC, DUMP_MODE_MS and DUMP_MODE_GC
abbrev pub dump_mode : Device → ℕ
dump_mode emmc = 0
dump_mode ms = 1
dump_mode gc = 2

abbrev pub sector_answer : Device → Medium → ℕ → List ℕ
sector_answer dev disk i = encode (record (blank (reading_sector dev) 512) { content = disk i })

abbrev pub cluster_answer : Device → Medium → ℕ → List ℕ
cluster_answer dev disk i = encode (blank (reading_cluster dev) 0) ++ sectors disk (mul32 8 i) 8

abbrev pub ping_answer : List ℕ
ping_answer = encode (record (blank Command.ping 10) { content = emmcproxy })

-- The connection does not fail, a request and a response of at most 22 bytes come in one piece, and the server
-- answers each request by the result 0 and the data of the medium.
pub record IsServed (peer : Peer) (dev : Device) (disk : Medium) : Type 0 where
  pub receives : (t len there : ℕ) → peer.recv t len there ≢ socket_error
  pub whole : (t len there : ℕ) → len ≤ 22 → len ≤ there → peer.recv t len there ≡ len
  pub accepts : (t : ℕ) (bytes : List ℕ) → peer.send t bytes ≢ socket_error
  pub sends : (t : ℕ) (bytes : List ℕ) → length bytes < 100 → peer.send t bytes ≡ length bytes
  pub ping_served : (t : ℕ) → peer.respond t (le32 (code Command.ping)) ≡ ping_answer
  pub init_served :
      (t : ℕ)
      → peer.respond t (le32 (code Command.init) ++ (le32 512 ++ le32 8))
        ≡ encode (blank Command.init 0)
  pub deinit_served :
      (t : ℕ) → peer.respond t (le32 (code Command.deinit)) ≡ encode (blank Command.deinit 0)
  pub cluster_served :
      (t i : ℕ)
      → i < word
      → peer.respond t (le32 (code (reading_cluster dev)) ++ le32 i) ≡ cluster_answer dev disk i
  pub sector_served :
      (t i : ℕ)
      → i < word
      → peer.respond t (le32 (code (reading_sector dev)) ++ le32 i) ≡ sector_answer dev disk i

-- A request was answered, and the answer was read to its end.
abbrev pub Served : Client → Client → Type 0
Served c c' = (sent : List ℕ) × (t : ℕ) × (c' ≡ record c { incoming = []; sent = sent; clock = t })

module _ (peer : Peer) (law : IsPeer peer) (dev : Device) (disk : Medium) (m : IsMedium disk)
    (h : IsServed peer dev disk) where
  pub never_fails : Failure peer → ⊥
  never_fails (inl (t, len, there, e)) = h.receives t len there e
  never_fails (inr (t, bytes, e)) = h.accepts t bytes e

  -- A request is taken whole, and its answer is what can be read.
  pub answers-request :
      (c : Client) (request answer : List ℕ)
      → length request < 100
      → c.incoming ≡ []
      → ((t : ℕ) → peer.respond t request ≡ answer)
      → answers peer c request ≡ answer
  answers-request c request answer short empty e =
      let all : take (moved (length request)) request ≡ request =
        let same : moved (length request) ≡ length request = ground arith in
        ap (λ n. take n request) same ∙ take_all (length request) request (omega arith) in
      rw (empty, h.sends c.clock request short, all) (e c.clock)
