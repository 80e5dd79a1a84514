-- ===== src/Client/Reads.antt =====
-- client/psvemmc/psvemmc.cpp: what the client gets from a read, by the bytes that the server sent.
use psvemmc.Base.{
  ℕ, suc, ◌+◌, ◌≤◌, ◌<◌, ◌≡◌, ◌⊎◌, inl, inr, refl, ap, true, false, List, ◌++◌, arith, ◌==◌, word,
  length, take, drop, overwrite, overwrite_all, le32, ==→eq, Returns, branch-Returns, length-take,
  length-drop, drop-drop,
}
use psvemmc.Server.Protocol.{Command, code}
use psvemmc.Server.Wire.{parse}
use psvemmc.Client.State.{Peer, Client, IsPeer, socket_error, moved, answers, send}
use psvemmc.Client.Commands.{is_bad_read, emmc_read_sector_by, emmc_read_cluster_by}
use psvemmc.Client.Receive.{after_recv, Failure}
use psvemmc.Client.Buffers.{recv_all-bind}
use psvemmc.Client.Exchange.{Answered, GivenUp, exchange-bind}

-- The response is the first 524 bytes that come. It is taken for good by its code and its result of
-- the driver, and then its data is the result; or it is bad, or a call failed, and the array is left.
abbrev pub SectorGot : Peer → Command → List ℕ → List ℕ → Client → (ℕ × List ℕ) × Client → Type 0
SectorGot peer command result there c out =
    ((is_bad_read command (parse (take 524 there)) ≡ false)
      × (out.0 ≡ (0, drop 12 (take 524 there)))
      × Answered c there 524 out.1)
    ⊎ ((out.0.1 ≡ result)
        × GivenUp c out.0.0 out.1
        × ((is_bad_read command (parse (take 524 there)) ≡ true) ⊎ Failure peer))

module _ (peer : Peer) (law : IsPeer peer) where
  -- If the whole response can be read once the request was sent, emmc_read_sector returns, with one of
  -- two results. The first 524 bytes are a response with the code of the command and the result 0 of
  -- the driver, and the client's result is 0 with the data of the response; or they are not, or a call
  -- of a socket failed, and the result is -1, the array is left, and the socket is closed once. The
  -- calls may move the bytes in any pieces.
  pub emmc_read_sector_by_lem :
      (command : Command) (sector : ℕ) (result : List ℕ) (c : Client)
      → length result ≡ 512
      → 524 ≤ length (answers peer c (le32 (code command) ++ le32 sector))
      → Returns
          (emmc_read_sector_by peer command sector result c)
          (SectorGot peer command result (answers peer c (le32 (code command) ++ le32 sector)) c)
  unfolding emmc_read_sector_by send
  emmc_read_sector_by_lem command sector result c l long =
      let request = le32 (code command) ++ le32 sector in
      let r = peer.send c.clock request in
      let there = answers peer c request in
      let c1 = record c {
        clock = suc c.clock;
        sent = c.sent ++ take (moved r) request;
        incoming = there;
      } in
      let Q = SectorGot peer command result there c in
      branch-Returns (r == socket_error) _ _ c1 Q
        (λ bad. inr (refl, (refl, refl, refl), inr (inr (c.clock, request, ==→eq r _ bad))))
        (λ good.
          recv_all-bind peer law (peer.local_bytes c1.clock 524) 524 _ c1 Q (omega arith)
            (law.local_law c1.clock 524) long
            (λ t late.
              let resp = take 524 there in
              branch-Returns (is_bad_read command (parse resp)) _ _ (after_recv c1 524 t) Q
                (λ e. inr (refl, (refl, refl, refl), inl e))
                (λ e. inl (
                  e,
                  ap (λ x. (0, x))
                      (overwrite_all result (drop 12 resp) (whole result there l long)),
                  (c1.sent, t, refl),
                )))
            (λ held c' len (n, t, e, why). rw e (inr (refl, (refl, refl, refl), inr why))))
    where
      whole :
          (result there : List ℕ)
          → length result ≡ 512
          → 524 ≤ length there
          → length (drop 12 (take 524 there)) ≡ length result
      whole result there l long =
          omega (arith, length-drop 12 (take 524 there), length-take 524 there)

-- The header of the response is what the first call of recv brings, and the data of the cluster are
-- the bytes behind it.
abbrev pub ClusterGot : Peer → Command → ℕ → List ℕ → Client → (ℕ × List ℕ) × Client → Type 0
ClusterGot peer command size there c out =
    ((n t : ℕ) × (held : List ℕ) × (n ≡ peer.recv t 12 (length there))
      × (length held ≡ 12)
      × (((is_bad_read command (parse (overwrite held (take n there))) ≡ false)
            × (out.0 ≡ (0, take size (drop n there)))
            × Answered c there (n + size) out.1)
          ⊎ ((is_bad_read command (parse (overwrite held (take n there))) ≡ true)
              × GivenUp c out.0.0 out.1)))
    ⊎ (GivenUp c out.0.0 out.1 × Failure peer)

module _ (peer : Peer) (law : IsPeer peer) where
  -- If the header and the whole cluster can be read once the request was sent, emmc_read_cluster
  -- returns. The header is what one call of recv brings, at most 12 bytes, over what the local variable
  -- held, and the buffer gets the bytes behind those, in any pieces: with the result 0 if the header is
  -- one with the code of the command and the result 0 of the driver; else, or if a call of a socket
  -- failed, the result is -1 and the socket is closed once.
  pub emmc_read_cluster_by_lem :
      (command : Command) (cluster size : ℕ) (buffer : List ℕ) (c : Client)
      → size < word
      → length buffer ≡ size
      → 12 + size ≤ length (answers peer c (le32 (code command) ++ le32 cluster))
      → Returns
          (emmc_read_cluster_by peer command cluster size buffer c)
          (ClusterGot peer command size (answers peer c (le32 (code command) ++ le32 cluster)) c)
  unfolding emmc_read_cluster_by
  emmc_read_cluster_by_lem command cluster size buffer c w l long =
      let there = answers peer c (le32 (code command) ++ le32 cluster) in
      let Q = ClusterGot peer command size there c in
      exchange-bind peer law (le32 (code command) ++ le32 cluster) 12 _ c Q
        (λ n t held sent t' e small few h.
          let c1 = record c { incoming = drop n there; sent = sent; clock = t' } in
          let header = overwrite held (take n there) in
          recv_all-bind peer law buffer size _ c1 Q w l (omega (arith, length-drop n there))
            (λ t'' late.
              branch-Returns (is_bad_read command (parse header)) _ _ (after_recv c1 size t'') Q
                (λ bad. inl (n, t, held, e, h, inr (bad, (refl, refl, refl))))
                (λ good. inl (
                  n,
                  t,
                  held,
                  e,
                  h,
                  inl (
                    good,
                    refl,
                    (
                      sent,
                      t'',
                      ap (λ x. record c1 { incoming = x; clock = t'' }) (drop-drop n size there),
                    ),
                  ),
                )))
            (λ got c' len (m, t'', z, why). rw z (inr ((refl, refl, refl), why))))
        (λ header c' g why. inr (g, why))
