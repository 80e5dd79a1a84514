-- ===== src/Client/Served.antt =====
-- client/psvemmc: the client with a server that answers as server/src/main.c does, over a connection
-- that stays.
use psvemmc.Base.{
  ℕ, ◌+◌, ◌<◌, ◌≡◌, ◌≢◌, inl, inr, refl, ap, sym, subst, ◌∙◌, true, false, List, [], ◌++◌, arith,
  mul32, word, length, take, drop, take_all, drop_all, overwrite, overwrite_all, le32, Returns,
  Returns-mono,
}
use psvemmc.Driver.Reads.{Medium, IsMedium, sectors, length-sectors}
use psvemmc.Driver.Correct.{Device, emmc, ms, gc}
use psvemmc.Server.Protocol.{code, encode, blank}
use psvemmc.Server.Wire.{parse}
use psvemmc.Server.Answers.{reading_sector, reading_cluster}
use psvemmc.Client.State.{Peer, Client, IsPeer, answers}
use psvemmc.Client.Commands.{
  is_bad_read, read_sector, read_cluster, emmc_read_sector_by, emmc_read_cluster_by,
}
use psvemmc.Client.Service.{
  IsServed, Served, dump_mode, sector_answer, cluster_answer, never_fails, answers-request,
}
use psvemmc.Client.Reads.{SectorGot, ClusterGot, emmc_read_sector_by_lem, emmc_read_cluster_by_lem}

true-ne-false : true ≢ false
true-ne-false e = cc

sector_is_good :
    (dev : Device) (disk : Medium) (i : ℕ)
    → is_bad_read (reading_sector dev) (parse (sector_answer dev disk i)) ≡ false
sector_is_good emmc disk i = refl
sector_is_good ms disk i = refl
sector_is_good gc disk i = refl

cluster_is_good :
    (dev : Device)
    → is_bad_read (reading_cluster dev) (parse (encode (blank (reading_cluster dev) 0))) ≡ false
cluster_is_good emmc = refl
cluster_is_good ms = refl
cluster_is_good gc = refl

read_sector-dump_mode :
    (peer : Peer) (dev : Device)
    → read_sector peer (dump_mode dev) ≡ emmc_read_sector_by peer (reading_sector dev)
unfolding read_sector
read_sector-dump_mode peer emmc = refl
read_sector-dump_mode peer ms = refl
read_sector-dump_mode peer gc = refl

read_cluster-dump_mode :
    (peer : Peer) (dev : Device)
    → read_cluster peer (dump_mode dev) ≡ emmc_read_cluster_by peer (reading_cluster dev)
unfolding read_cluster
read_cluster-dump_mode peer emmc = refl
read_cluster-dump_mode peer ms = refl
read_cluster-dump_mode peer gc = refl

module _ (peer : Peer) (law : IsPeer peer) (dev : Device) (disk : Medium) (m : IsMedium disk)
    (h : IsServed peer dev disk) where
  pub read_sector-Served :
      (i : ℕ) (result : List ℕ) (c : Client)
      → i < word
      → length result ≡ 512
      → c.incoming ≡ []
      → Returns
          (read_sector peer (dump_mode dev) i result c)
          (λ out. (out.0 ≡ (0, disk i)) × Served c out.1)
  read_sector-Served i result c w l empty =
      let there = answers peer c (le32 (code (reading_sector dev)) ++ le32 i) in
      let e : there ≡ sector_answer dev disk i =
        answers-request peer law dev disk m h c (le32 (code (reading_sector dev)) ++ le32 i)
          (sector_answer dev disk i) (omega arith) empty (λ t. h.sector_served t i w) in
      let size : length (sector_answer dev disk i) ≡ 524 = omega (arith, m.sector_size i) in
      rw (read_sector-dump_mode peer dev) (
        Returns-mono (emmc_read_sector_by peer (reading_sector dev) i result c)
          (SectorGot peer (reading_sector dev) result there c) _
          (λ out got.
            go out (subst (λ x. SectorGot peer (reading_sector dev) result x c out) e got))
          (emmc_read_sector_by_lem peer law (reading_sector dev) i result c l (rw e (omega arith))))
    where
      answer : List ℕ
      answer = sector_answer dev disk i

      size : length answer ≡ 524
      size = omega (arith, m.sector_size i)

      whole : take 524 answer ≡ answer
      whole = take_all 524 answer (omega (arith, size))

      go :
          (out : (ℕ × List ℕ) × Client)
          → SectorGot peer (reading_sector dev) result answer c out
          → (out.0 ≡ (0, disk i)) × Served c out.1
      go out (inl (good, r, (sent, t, z))) = (
        r ∙ ap (λ x. (0, drop 12 x)) whole,
        (
          sent,
          t,
          z
              ∙ ap (λ x. record c { incoming = x; sent = sent; clock = t })
                  (drop_all 524 answer (omega (arith, size))),
        ),
      )
      go out (inr (_, _, inl bad)) = absurd (
          true-ne-false (
            sym bad
            ∙ ap (λ x. is_bad_read (reading_sector dev) (parse x)) whole
            ∙ sector_is_good dev disk i))
      go out (inr (_, _, inr why)) = absurd (never_fails peer law dev disk m h why)

  pub read_cluster-Served :
      (i : ℕ) (buffer : List ℕ) (c : Client)
      → i < word
      → length buffer ≡ 4096
      → c.incoming ≡ []
      → Returns
          (read_cluster peer (dump_mode dev) i 4096 buffer c)
          (λ out. (out.0 ≡ (0, sectors disk (mul32 8 i) 8)) × Served c out.1)
  read_cluster-Served i buffer c w l empty =
      let there = answers peer c (le32 (code (reading_cluster dev)) ++ le32 i) in
      let e : there ≡ cluster_answer dev disk i =
        answers-request peer law dev disk m h c (le32 (code (reading_cluster dev)) ++ le32 i)
          (cluster_answer dev disk i) (omega arith) empty (λ t. h.cluster_served t i w) in
      rw (read_cluster-dump_mode peer dev) (
        Returns-mono (emmc_read_cluster_by peer (reading_cluster dev) i 4096 buffer c)
          (ClusterGot peer (reading_cluster dev) 4096 there c) _
          (λ out got.
            go out (subst (λ x. ClusterGot peer (reading_cluster dev) 4096 x c out) e got))
          (emmc_read_cluster_by_lem peer law (reading_cluster dev) i 4096 buffer c (omega arith) l
            (rw e (omega (arith, size)))))
    where
      answer : List ℕ
      answer = cluster_answer dev disk i

      content : List ℕ
      content = sectors disk (mul32 8 i) 8

      size : length answer ≡ 12 + 4096
      size = omega (arith, length-sectors disk m (mul32 8 i) 8)

      header : List ℕ
      header = encode (blank (reading_cluster dev) 0)

      is_whole : (n t : ℕ) → n ≡ peer.recv t 12 (length answer) → n ≡ 12
      is_whole n t e = e ∙ h.whole t 12 (length answer) (omega arith) (omega (arith, size))

      came :
          (n : ℕ) (got : List ℕ) → n ≡ 12 → length got ≡ 12 → overwrite got (take n answer) ≡ header
      came n got e k = rw e (overwrite_all got header (sym k))

      go :
          (out : (ℕ × List ℕ) × Client)
          → ClusterGot peer (reading_cluster dev) 4096 answer c out
          → (out.0 ≡ (0, content)) × Served c out.1
      go out (inl (n, t, got, e, k, inl (good, r, (sent, t', z)))) =
          let whole = is_whole n t e in
          (
            r
                ∙ ap (λ x. (0, take 4096 (drop x answer))) whole
                ∙ ap (λ x. (0, x))
                    (take_all 4096 content (omega (arith, length-sectors disk m (mul32 8 i) 8))),
            (
              sent,
              t',
              z
                  ∙ ap
                      (λ x. record c { incoming = drop (x + 4096) answer; sent = sent; clock = t' })
                      whole
                  ∙ ap (λ x. record c { incoming = x; sent = sent; clock = t' })
                      (drop_all 4108 answer (omega (arith, size))),
            ),
          )
      go out (inl (n, t, got, e, k, inr (bad, _))) = absurd (
          true-ne-false (
            sym bad
            ∙ ap (λ x. is_bad_read (reading_cluster dev) (parse x)) (came n got (is_whole n t e) k)
            ∙ cluster_is_good dev))
      go out (inr (_, why)) = absurd (never_fails peer law dev disk m h why)
