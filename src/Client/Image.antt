-- ===== src/Client/Image.antt =====
-- client/psvemmc/psvemmc.cpp, dump_partition: what the file holds.
use psvemmc.Base.{
  ℕ, zero, suc, ◌+◌, ◌*◌, ◌≤◌, ◌<◌, ◌≡◌, inl, inr, refl, ap, sym, subst, ◌∙◌, Bool, true, List, [],
  ◌++◌, arith, add32, mul32, word, length, take, drop, overwrite, overwrite_all, le32, Returns,
  Returns-mono, Returns-bind, append-nil, append_assoc, drop_all, take_all,
}
use psvemmc.Driver.Reads.{Medium, IsMedium, sectors, length-sectors}
use psvemmc.Driver.Correct.{Device}
use psvemmc.Server.Protocol.{Command, code, encode, blank}
use psvemmc.Client.State.{Peer, Client, IsPeer, answers}
use psvemmc.Client.Commands.{emmc_init, emmc_deinit, exchange, read_sector, read_cluster}
use psvemmc.Client.Exchange.{Exchanged, exchange_lem}
use psvemmc.Client.Dump.{write_file, dump_clusters, dump_sectors}
use psvemmc.Client.Service.{IsServed, Served, dump_mode, never_fails, answers-request}
use psvemmc.Client.Served.{read_sector-Served, read_cluster-Served}

pub sectors-add :
    (disk : Medium) (i m n : ℕ)
    → sectors disk i m ++ sectors disk (i + m) n ≡ sectors disk i (m + n)
sectors-add disk i zero n =
    let e : i + 0 ≡ i = omega arith in let f : 0 + n ≡ n = omega arith in rw (e, f)
sectors-add disk i (suc m) n =
    let e : i + suc m ≡ suc i + m = omega arith in
    let f : suc m + n ≡ suc (m + n) = omega arith in
    rw (e, f) (append_assoc (disk i) _ _ ∙ ap (λ x. disk i ++ x) (sectors-add disk (suc i) m n))

-- The loops wrote these bytes behind the file, and every answer was read.
abbrev pub Wrote : Client → List ℕ → Bool × Client → Type 0
Wrote c bytes out =
    (out.0 ≡ true)
    × ((sent : List ℕ) × (t : ℕ) × (out.1
          ≡ record c { incoming = []; sent = sent; file = c.file ++ bytes; clock = t }))

Wrote-none : (c : Client) → c.incoming ≡ [] → Wrote c [] (true, c)
Wrote-none c empty = (
  refl,
  (
    c.sent,
    c.clock,
    ap (λ x. record c { incoming = x }) empty
        ∙ ap (λ x. record c { incoming = []; file = x }) (sym (append-nil c.file)),
  ),
)

-- One piece was written, and then the others.
Wrote-more :
    (c : Client) (a b ab : List ℕ) (sent : List ℕ) (t : ℕ) (out : Bool × Client)
    → a ++ b ≡ ab
    → Wrote (write_file a (record c { incoming = []; sent = sent; clock = t })) b out
    → Wrote c ab out
Wrote-more c a b ab sent t out e (x, (sent', t', y)) = (
  x,
  (
    sent',
    t',
    y
        ∙ ap (λ z. record c { incoming = []; sent = sent'; file = z; clock = t' })
            (append_assoc c.file a b ∙ ap (λ z. c.file ++ z) e),
  ),
)

module _ (peer : Peer) (law : IsPeer peer) (dev : Device) (disk : Medium) (m : IsMedium disk)
    (h : IsServed peer dev disk) where
  -- A request whose answer is a header only.
  pub small_exchange :
      (size : ℕ) (request header : List ℕ) (c : Client)
      → length request < 100
      → size ≤ 22
      → length header ≡ size
      → c.incoming ≡ []
      → ((t : ℕ) → peer.respond t request ≡ header)
      → Returns (exchange peer request size c) (λ out. (out.0 ≡ (true, header)) × Served c out.1)
  small_exchange size request header c short few len empty e =
      Returns-mono (exchange peer request size c) (Exchanged peer size (answers peer c request) c) _
        (λ out x. go out (
          subst (λ there. Exchanged peer size there c out)
            (answers-request peer law dev disk m h c request header short empty e) x))
        (exchange_lem peer law request size c)
    where
      go :
          (out : (Bool × List ℕ) × Client)
          → Exchanged peer size header c out
          → (out.0 ≡ (true, header)) × Served c out.1
      go out (inl (x, (n, t, held, e, k, l, g, y, (sent, t', z)))) =
          let whole : n ≡ size = e ∙ h.whole t size (length header) few (omega arith) in
          (
            ap (λ b. (b, out.0.1)) x
                ∙ ap (λ b. (true, b))
                    (y
                      ∙ ap (λ k. overwrite held (take k header)) whole
                      ∙ ap (λ x. overwrite held x) (take_all size header (omega arith))
                      ∙ overwrite_all held header (omega arith)),
            (
              sent,
              t',
              z
                  ∙ ap (λ k. record c { incoming = drop k header; sent = sent; clock = t' }) whole
                  ∙ ap (λ x. record c { incoming = x; sent = sent; clock = t' })
                      (drop_all size header (omega arith)),
            ),
          )
      go out (inr (x, g, why)) = absurd (never_fails peer law dev disk m h why)

  pub dump_clusters-Wrote :
      (offset n i : ℕ) (cluster_data : List ℕ) (c : Client)
      → 8 * (offset + i + n) < word
      → length cluster_data ≡ 4096
      → c.incoming ≡ []
      → Returns
          (dump_clusters peer (dump_mode dev) offset n i cluster_data c)
          (Wrote c (sectors disk (8 * (offset + i)) (8 * n)))
  unfolding dump_clusters
  dump_clusters-Wrote offset zero i cluster_data c w l empty = Wrote-none c empty
  dump_clusters-Wrote offset (suc n) i cluster_data c w l empty =
      Returns-bind (read_cluster peer (dump_mode dev) (add32 offset i) 4096 cluster_data) _ c _ _
        (read_cluster-Served peer law dev disk m h (add32 offset i) cluster_data c (omega arith) l
          empty)
        (λ (res, got) c' (x, (sent, t, y)).
          let a : res ≡ 0 = ap (λ p. p.0) x in
          let b : got ≡ sectors disk (8 * (offset + i)) 8 =
            ap (λ p. p.1) x ∙ ap (λ k. sectors disk k 8) here in
          rw (a, y)
            (Returns-mono _ _ _
              (λ out.
                Wrote-more c got _ _ sent t out
                  (ap (λ z. z ++ sectors disk (8 * (offset + suc i)) (8 * n)) b ∙ joins))
              (dump_clusters-Wrote offset n (suc i) got
                (write_file got (record c { incoming = []; sent = sent; clock = t })) (omega arith)
                (ap (λ z. length z) b ∙ length-sectors disk m (8 * (offset + i)) 8) refl)))
    where
      here : mul32 8 (add32 offset i) ≡ 8 * (offset + i)
      here = omega arith

      joins :
          sectors disk (8 * (offset + i)) 8 ++ sectors disk (8 * (offset + suc i)) (8 * n)
          ≡ sectors disk (8 * (offset + i)) (8 * suc n)
      joins =
          let j : 8 * (offset + suc i) ≡ 8 * (offset + i) + 8 = omega arith in
          let k : 8 * suc n ≡ 8 + 8 * n = omega arith in
          ap (λ z. sectors disk (8 * (offset + i)) 8 ++ sectors disk z (8 * n)) j
          ∙ sectors-add disk (8 * (offset + i)) 8 (8 * n)
          ∙ ap (λ z. sectors disk (8 * (offset + i)) z) (sym k)

  pub dump_sectors-Wrote :
      (offset n i : ℕ) (sector_data : List ℕ) (c : Client)
      → offset + i + n < word
      → length sector_data ≡ 512
      → c.incoming ≡ []
      → Returns
          (dump_sectors peer (dump_mode dev) offset n i sector_data c)
          (Wrote c (sectors disk (offset + i) n))
  unfolding dump_sectors
  dump_sectors-Wrote offset zero i sector_data c w l empty = Wrote-none c empty
  dump_sectors-Wrote offset (suc n) i sector_data c w l empty =
      Returns-bind (read_sector peer (dump_mode dev) (add32 offset i) sector_data) _ c _ _
        (read_sector-Served peer law dev disk m h (add32 offset i) sector_data c (omega arith) l
          empty)
        (λ (res, got) c' (x, (sent, t, y)).
          let a : res ≡ 0 = ap (λ p. p.0) x in
          let here : add32 offset i ≡ offset + i = omega arith in
          let b : got ≡ disk (offset + i) = ap (λ p. p.1) x ∙ ap disk here in
          let next : offset + suc i ≡ suc (offset + i) = omega arith in
          rw (a, y)
            (Returns-mono _ _ _
              (λ out. Wrote-more c got (sectors disk (offset + suc i) n) _ sent t out (
                ap (λ z. z ++ sectors disk (offset + suc i) n) b
                ∙ ap (λ k. disk (offset + i) ++ sectors disk k n) next))
              (dump_sectors-Wrote offset n (suc i) got
                (write_file got (record c { incoming = []; sent = sent; clock = t })) (omega arith)
                (ap (λ z. length z) b ∙ m.sector_size (offset + i)) refl)))

  pub emmc_init-Served :
      (c : Client)
      → c.incoming ≡ []
      → Returns (emmc_init peer 512 8 c) (λ out. (out.0 ≡ 0) × Served c out.1)
  unfolding emmc_init
  emmc_init-Served c empty =
      Returns-bind (exchange peer (le32 (code Command.init) ++ (le32 512 ++ le32 8)) 12) _ c _ _
        (small_exchange 12 (le32 (code Command.init) ++ (le32 512 ++ le32 8))
          (encode (blank Command.init 0)) c (omega arith) (omega arith) refl empty h.init_served)
        (λ got c' (x, y). rw x (refl, y))

  pub emmc_deinit-Served :
      (c : Client)
      → c.incoming ≡ []
      → Returns (emmc_deinit peer c) (λ out. (out.0 ≡ 0) × Served c out.1)
  unfolding emmc_deinit
  emmc_deinit-Served c empty =
      Returns-bind (exchange peer (le32 (code Command.deinit)) 12) _ c _ _
        (small_exchange 12 (le32 (code Command.deinit)) (encode (blank Command.deinit 0)) c
          (omega arith) (omega arith) refl empty h.deinit_served)
        (λ got c' (x, y). rw x (refl, y))
