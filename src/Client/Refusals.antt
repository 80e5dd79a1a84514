-- ===== src/Client/Refusals.antt =====
-- client/psvemmc/psvemmc.cpp: what the client makes of the responses by which the server refuses.
use psvemmc.Base.{
  ℕ, ◌≤◌, ◌<◌, ◌≡◌, inl, inr, refl, ap, subst, ◌∙◌, false, List, ◌++◌, arith, word, length, take,
  take_all, drop, replicate, length-replicate, le32, Returns, Returns-mono,
}
use psvemmc.Driver.Correct.{Device}
use psvemmc.Server.Protocol.{Command, Response, code, encode, blank}
use psvemmc.Server.Wire.{parse}
use psvemmc.Server.Answers.{reading_sector}
use psvemmc.Client.State.{Peer, Client, IsPeer, answers}
use psvemmc.Client.Commands.{is_bad_read, emmc_read_sector_by}
use psvemmc.Client.Receive.{Failure}
use psvemmc.Client.Reads.{SectorGot, emmc_read_sector_by_lem}
use psvemmc.Client.Link.{is_bad_read-parse, code_of_read}

-- The response to a read of a sector that the server refuses with this result of its own.
abbrev pub refusal : Command → ℕ → Response
refusal c vita_err = record (blank c 512) { vita_err = vita_err }

-- The client takes a refused read of a sector for a good one: whatever the server's result, the
-- client's is 0, and the sector that it gets is 0x200 bytes of 0. The calls of the sockets succeed.
pub emmc_read_sector_by-refusal :
    (peer : Peer) (dev : Device) (sector vita_err : ℕ) (result : List ℕ) (c : Client)
    → IsPeer peer
    → (Failure peer → ⊥)
    → vita_err < word
    → length result ≡ 512
    → answers peer c (le32 (code (reading_sector dev)) ++ le32 sector)
      ≡ encode (refusal (reading_sector dev) vita_err)
    → Returns
        (emmc_read_sector_by peer (reading_sector dev) sector result c)
        (λ out. out.0 ≡ (0, replicate 512 0))
emmc_read_sector_by-refusal peer dev sector vita_err result c law fine w l linked =
    let long : 524 ≤ length (answers peer c (le32 (code (reading_sector dev)) ++ le32 sector)) =
      rw linked (omega (arith, size)) in
    Returns-mono (emmc_read_sector_by peer (reading_sector dev) sector result c)
      (SectorGot peer (reading_sector dev) result
        (answers peer c (le32 (code (reading_sector dev)) ++ le32 sector)) c)
      _
      (λ out got.
        taken out (subst (λ x. SectorGot peer (reading_sector dev) result x c out) linked got))
      (emmc_read_sector_by_lem peer law (reading_sector dev) sector result c l long)
  where
    bytes : List ℕ
    bytes = encode (refusal (reading_sector dev) vita_err)

    size : length bytes ≡ 524
    size = omega (arith, length-replicate {A = ℕ} 512 0)

    whole : take 524 bytes ≡ bytes
    whole = take_all 524 bytes (omega (arith, size))

    good : is_bad_read (reading_sector dev) (parse (take 524 bytes)) ≡ false
    good =
        ap (λ x. is_bad_read (reading_sector dev) (parse x)) whole
        ∙ is_bad_read-parse (reading_sector dev) (refusal (reading_sector dev) vita_err) refl
            (code_of_read dev) w (omega arith)

    taken :
        (out : (ℕ × List ℕ) × Client)
        → SectorGot peer (reading_sector dev) result bytes c out
        → out.0 ≡ (0, replicate 512 0)
    taken out (inl (_, r, _)) = r ∙ ap (λ x. (0, drop 12 x)) whole
    taken out (inr (_, _, inl bad)) = cc (good, bad)
    taken out (inr (_, _, inr why)) = absurd (fine why)
