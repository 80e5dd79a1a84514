-- ===== src/Client/Exchange.antt =====
-- client/psvemmc/psvemmc.cpp: a request of which the response is taken with one call of recv.
use psvemmc.Base.{
  ℕ, suc, ◌≤◌, ◌≡◌, ◌⊎◌, inl, inr, refl, ap, Bool, true, false, List, arith, ◌++◌, ◌>>=◌, ◌==◌, neg,
  length, take, drop, overwrite, ==→eq, Exec, Returns, Returns-bind, branch-Returns,
}
use psvemmc.Client.State.{Peer, Client, IsPeer, socket_error, moved, answers, recv, send}
use psvemmc.Client.Commands.{exchange}
use psvemmc.Client.Receive.{Failure}

-- The client after a request was sent, and `n` bytes were read of those that were there then.
abbrev pub Answered : Client → List ℕ → ℕ → Client → Type 0
Answered c there n c' =
    (sent : List ℕ) × (t : ℕ) × (c' ≡ record c { incoming = drop n there; sent = sent; clock = t })

-- The result -1: the socket was closed once, and nothing was written to the file.
abbrev pub GivenUp : Client → ℕ → Client → Type 0
GivenUp c res c' = (res ≡ neg 1) × (c'.closes ≡ suc c.closes) × (c'.file ≡ c.file)

-- One request and the first piece of its response: `n` bytes of the response came over those that the
-- local variable held, or a call failed.
abbrev pub Exchanged : Peer → ℕ → List ℕ → Client → (Bool × List ℕ) × Client → Type 0
Exchanged peer size there c out =
    ((out.0.0 ≡ true)
      × ((n t : ℕ) × (held : List ℕ) × (n ≡ peer.recv t size (length there))
          × (n ≤ size)
          × (n ≤ length there)
          × (length held ≡ size)
          × (out.0.1 ≡ overwrite held (take n there))
          × Answered c there n out.1))
    ⊎ ((out.0.0 ≡ false) × GivenUp c (neg 1) out.1 × Failure peer)

module _ (peer : Peer) (law : IsPeer peer) where
  recv_at_most :
      (t len there : ℕ)
      → (peer.recv t len there == socket_error) ≡ false
      → (moved (peer.recv t len there) ≡ peer.recv t len there)
        × (peer.recv t len there ≤ there)
        × (peer.recv t len there ≤ len)
  recv_at_most t len there e = ground (arith, law.recv_law t len there)

  pub exchange_lem :
      (request : List ℕ) (size : ℕ) (c : Client)
      → Returns (exchange peer request size c) (Exchanged peer size (answers peer c request) c)
  unfolding exchange send recv
  exchange_lem request size c =
      let r = peer.send c.clock request in
      let there = answers peer c request in
      let c1 = record c {
        clock = suc c.clock;
        sent = c.sent ++ take (moved r) request;
        incoming = there;
      } in
      let n = peer.recv (suc c.clock) size (length there) in
      let c2 = record c1 { clock = suc (suc c.clock); incoming = drop (moved n) there } in
      let Q = Exchanged peer size there c in
      branch-Returns (r == socket_error) _ _ c1 Q
        (λ bad. inr (refl, (refl, refl, refl), inr (c.clock, request, ==→eq r _ bad)))
        (λ good.
          branch-Returns (n == socket_error) _ _ c2 Q
            (λ bad.
              inr (refl, (refl, refl, refl), inl (suc c.clock, size, length there, ==→eq n _ bad)))
            (λ fine.
              let k = recv_at_most (suc c.clock) size (length there) fine in
              inl (
                refl,
                (
                  n,
                  suc c.clock,
                  peer.local_bytes (suc c.clock) size,
                  refl,
                  k.2,
                  k.1,
                  law.local_law (suc c.clock) size,
                  ap (λ m. overwrite (peer.local_bytes (suc c.clock) size) (take m there)) k.0,
                  (
                    c1.sent,
                    suc (suc c.clock),
                    ap (λ m. record c1 { clock = suc (suc c.clock); incoming = drop m there }) k.0,
                  ),
                ),
              )))

  pub exchange-bind :
      {B : Type 0} (request : List ℕ) (size : ℕ) (f : Bool × List ℕ → Exec Client B) (c : Client)
      (Q : B × Client → Type 0)
      → ((n t : ℕ) (held sent : List ℕ) (t' : ℕ)
          → n ≡ peer.recv t size (length (answers peer c request))
          → n ≤ size
          → n ≤ length (answers peer c request)
          → length held ≡ size
          → Returns
              (f
                (true, overwrite held (take n (answers peer c request)))
                (record c { incoming = drop n (answers peer c request); sent = sent; clock = t' }))
              Q)
      → ((header : List ℕ) (c' : Client)
          → GivenUp c (neg 1) c'
          → Failure peer
          → Returns (f (false, header) c') Q)
      → Returns ((exchange peer request size >>= f) c) Q
  exchange-bind request size f c Q fine bad =
      Returns-bind (exchange peer request size) f c (Exchanged peer size (answers peer c request) c)
        Q (exchange_lem request size c) (λ (b, header) c' h. go b header c' h)
    where
      go :
          (b : Bool) (header : List ℕ) (c' : Client)
          → Exchanged peer size (answers peer c request) c ((b, header), c')
          → Returns (f (b, header) c') Q
      go b header c' (inl (x, (n, t, held, e, m, l, h, y, (sent, t', z)))) =
          rw (x, y, z) (fine n t held sent t' e m l h)
      go b header c' (inr (x, g, why)) = rw x (bad header c' g why)
