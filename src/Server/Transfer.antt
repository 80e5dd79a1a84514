-- ===== src/Server/Transfer.antt =====
-- server/src/main.c: what the loops that send or receive a whole buffer do, for sockets that behave
-- as documented: a call fails, or moves at most as many bytes as it was asked for.
use psvemmc.Base.{
  ℕ, zero, suc, ◌+◌, ◌-◌, ◌≤◌, ◌<◌, ◌≡◌, ◌⊎◌, inl, inr, refl, ap, sym, ◌∙◌, true, false, List, [],
  ◌++◌, append-nil, append_assoc, arith, if◌then◌else◌, ◌==◌, is_neg, not_pos, neg, word, add32,
  sub32, length, take, drop, length-take, length-drop, take_all, subst, take-add, drop-drop,
  drop-take, le→leb, ne→==, Bool-cases, done, Returns, Returns-mono, if-apply, ◌>>=◌, slice,
}
use psvemmc.Server.State.{Net, Server, send_loop, send_all, accepted}

pub record IsNet (net : Net) : Type 0 where
  pub recv_law :
      (t sock len : ℕ)
      → (is_neg (net.recv t sock len).0 ≡ true)
        ⊎ (((net.recv t sock len).0 ≤ len)
            × (length (net.recv t sock len).1 ≡ (net.recv t sock len).0))
  pub send_law :
      (t sock : ℕ) (bytes : List ℕ)
      → (is_neg (net.send t sock bytes) ≡ true) ⊎ (net.send t sock bytes ≤ length bytes)

-- The sockets took these bytes, and nothing else changed.
abbrev pub after_send : Server → List ℕ → ℕ → Server
after_send s taken t = record s { sent = s.sent ++ taken; clock = t }

-- All of the bytes and the result 0; or all up to a call that failed, the last one, and the result -1.
abbrev pub Sends : Net → Server → List ℕ → ℕ × Server → Type 0
Sends net s bytes out =
    (n t : ℕ) × (out.1 ≡ after_send s (take n bytes) t)
    × (s.clock ≤ t)
    × (((out.0 ≡ 0) × (n ≡ length bytes))
        ⊎ ((out.0 ≡ neg 1)
            × (n < length bytes)
            × ((u : ℕ) × (t ≡ suc u) × (not_pos (net.send u s.cli_sock (drop n bytes)) ≡ true))))

module _ (net : Net) where
  send_loop_step :
      (fuel : ℕ) (buffer : List ℕ) (total off : ℕ) (s : Server) (bytes : List ℕ)
      → off < total
      → total < word
      → total ≤ length buffer
      → take (total - off) (drop off buffer) ≡ bytes
      → send_loop net (suc fuel) buffer total off s ≡ (
          let r = net.send s.clock s.cli_sock bytes in
          let s' = after_send s (accepted r bytes) (suc s.clock) in
          if not_pos r then done (neg 1, s') else send_loop net fuel buffer total (add32 off r) s')
  unfolding send_loop
  send_loop_step fuel buffer total off s bytes h w l e =
      let e2 : sub32 total off ≡ total - off = omega arith in
      let fits : off + (total - off) ≤ length buffer = omega arith in
      rw (ne→== off total (omega arith), e2, ◌>>=◌, slice, le→leb _ _ fits, e)
        (if-apply (not_pos (net.send s.clock s.cli_sock bytes)) _ _ _)

accepted_none : (r : ℕ) (bytes : List ℕ) → not_pos r ≡ true → accepted r bytes ≡ []
accepted_none r bytes h = elim (Bool-cases (is_neg r)) [
  | inl n ↦ rw n
  | inr p ↦ let e : r ≡ 0 = ground arith in rw (p, e)
]

length-window :
    (total off : ℕ) (buffer bytes : List ℕ)
    → total ≤ length buffer
    → take (total - off) (drop off buffer) ≡ bytes
    → length bytes ≡ total - off
length-window total off buffer bytes l e =
    omega (arith, length-take (total - off) (drop off buffer), length-drop off buffer, ap length e)

-- A round that fails leaves the bytes that are left unsent.
Sends-failed :
    (net : Net) (s : Server) (bytes : List ℕ)
    → 0 < length bytes
    → not_pos (net.send s.clock s.cli_sock bytes) ≡ true
    → Sends net s bytes
        (neg 1, after_send s (accepted (net.send s.clock s.cli_sock bytes) bytes) (suc s.clock))
Sends-failed net s bytes h e =
    rw (accepted_none (net.send s.clock s.cli_sock bytes) bytes e)
      (0, suc s.clock, refl, omega arith, inr (refl, h, (s.clock, refl, e)))

-- A round that moves `r` bytes, and what the rest of the loop does with the others.
Sends-more :
    (net : Net) (s : Server) (bytes : List ℕ) (r : ℕ) (out : ℕ × Server)
    → is_neg r ≡ false
    → r ≤ length bytes
    → Sends net (after_send s (accepted r bytes) (suc s.clock)) (drop r bytes) out
    → Sends net s bytes out
Sends-more net s bytes r out p l (n, t, e, c, res) =
    (r + n, t, e ∙ sent_together, omega arith, results res)
  where
    sent_together :
        after_send (after_send s (accepted r bytes) (suc s.clock)) (take n (drop r bytes)) t
        ≡ after_send s (take (r + n) bytes) t
    sent_together = rw (p, append_assoc s.sent, take-add r n bytes)

    results :
        ((out.0 ≡ 0) × (n ≡ length (drop r bytes)))
          ⊎ ((out.0 ≡ neg 1)
              × (n < length (drop r bytes))
              × ((u : ℕ) × (t ≡ suc u)
                  × (not_pos (net.send u s.cli_sock (drop n (drop r bytes))) ≡ true)))
        → ((out.0 ≡ 0) × (r + n ≡ length bytes))
          ⊎ ((out.0 ≡ neg 1)
              × (r + n < length bytes)
              × ((u : ℕ) × (t ≡ suc u)
                  × (not_pos (net.send u s.cli_sock (drop (r + n) bytes)) ≡ true)))
    results (inl (a, b)) = inl (a, omega (arith, length-drop r bytes))
    results (inr (a, b, (u, last, failed))) =
        inr
          (a, omega (arith, length-drop r bytes), (u, last, rw (sym (drop-drop r n bytes)) failed))

module _ (net : Net) (law : IsNet net) where
  -- A round that moves some bytes, given what the rest of the loop does.
  round_more :
      (fuel : ℕ) (buffer : List ℕ) (total off : ℕ) (s : Server) (bytes : List ℕ)
      → total < word
      → off < total
      → total - off < suc fuel
      → take (total - off) (drop off buffer) ≡ bytes
      → length bytes ≡ total - off
      → not_pos (net.send s.clock s.cli_sock bytes) ≡ false
      → (let r = net.send s.clock s.cli_sock bytes in
          let s' = after_send s (accepted r bytes) (suc s.clock) in
          off + r ≤ total
          → total - (off + r) < fuel
          → take (total - (off + r)) (drop (off + r) buffer) ≡ drop r bytes
          → Returns (send_loop net fuel buffer total (off + r) s') (Sends net s' (drop r bytes)))
      → (let r = net.send s.clock s.cli_sock bytes in
          Returns
            (send_loop net fuel buffer total
              (add32 off r)
              (after_send s (accepted r bytes) (suc s.clock)))
            (Sends net s bytes))
  round_more fuel buffer total off s bytes w o f e len good rest =
      let r = net.send s.clock s.cli_sock bytes in
      let s' = after_send s (accepted r bytes) (suc s.clock) in
      let le : r ≤ length bytes = ground (arith, law.send_law s.clock s.cli_sock bytes) in
      let pos : 0 < r = ground arith in
      let nn : is_neg r ≡ false = ground arith in
      let e3 : add32 off r ≡ off + r = omega arith in
      let e4 : total - (off + r) ≡ total - off - r = omega arith in
      rw e3 (
        Returns-mono (send_loop net fuel buffer total (off + r) s') (Sends net s' (drop r bytes))
          (Sends net s bytes) (λ out. Sends-more net s bytes r out nn le)
          (rest (omega arith) (omega arith) (
            rw e4 (
              ap (take (total - off - r)) (sym (drop-drop off r buffer))
              ∙ sym (drop-take r (total - off) (drop off buffer))
              ∙ ap (drop r) e))))

  send_loop_lem :
      (fuel : ℕ) (buffer : List ℕ) (total off : ℕ) (s : Server) (bytes : List ℕ)
      → total < word
      → total ≤ length buffer
      → off ≤ total
      → total - off < fuel
      → take (total - off) (drop off buffer) ≡ bytes
      → Returns (send_loop net fuel buffer total off s) (Sends net s bytes)
  unfolding send_loop
  send_loop_lem zero buffer total off s bytes w l o f e = absurd (omega arith)
  send_loop_lem (suc fuel) buffer total off s bytes w l o f e =
      let len = length-window total off buffer bytes l e in
      let r = net.send s.clock s.cli_sock bytes in
      elim (Bool-cases (off == total)) [
        | inl at_end ↦ rw at_end (
          0,
          s.clock,
          ap (λ x. record s { sent = x }) (sym (append-nil s.sent)),
          omega arith,
          inl (refl, ground arith),
        )
        | inr more ↦
            rw (send_loop_step net fuel buffer total off s bytes (ground arith) w l e)
              (elim (Bool-cases (not_pos r)) [
                | inl bad ↦ rw bad (Sends-failed net s bytes (ground arith) bad)
                | inr good ↦ rw good (
                    round_more fuel buffer total off s bytes w (ground arith) f e len good (
                      send_loop_lem fuel buffer total (off + r)
                        (after_send s (accepted r bytes) (suc s.clock)) (drop r bytes) w l))
              ])
      ]

-- Sending a buffer ends by itself, for any sizes of the pieces that the socket takes: all bytes are
-- sent, in order and once, and the result is 0; or the last call of `send`, with the bytes that are
-- left, fails, all bytes before them and no others are sent, and the result is -1. Nothing but the
-- output and the clock changes.
pub send_all_lem :
    (net : Net) (buffer : List ℕ) (bytes_to_send : ℕ) (s : Server)
    → IsNet net
    → bytes_to_send < word
    → bytes_to_send ≤ length buffer
    → Returns (send_all net buffer bytes_to_send s) (Sends net s (take bytes_to_send buffer))
unfolding send_all
send_all_lem net buffer total s law w l =
    let e : total - 0 ≡ total = omega arith in
    send_loop_lem net law (suc total) buffer total 0 s (take total buffer) w l (omega arith)
      (omega arith) (ap (λ n. take n buffer) e)

pub send_whole :
    (net : Net) (buffer : List ℕ) (n : ℕ) (s : Server)
    → IsNet net
    → n < word
    → length buffer ≡ n
    → Returns (send_all net buffer n s) (Sends net s buffer)
send_whole net buffer n s law w e =
    subst (λ bytes. Returns (send_all net buffer n s) (Sends net s bytes))
      (take_all n buffer (omega arith)) (send_all_lem net buffer n s law w (omega arith))
