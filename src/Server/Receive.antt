-- ===== src/Server/Receive.antt =====
-- server/src/main.c: what the loops that receive a whole buffer do.
use psvemmc.Base.{
  ℕ, zero, suc, ◌+◌, ◌-◌, ◌≤◌, ◌<◌, ◌≡◌, ◌⊎◌, inl, inr, refl, ap, sym, ◌∙◌, Bool, true, false, List,
  [], ◌∷◌, ◌++◌, append-nil, append_assoc, arith, if◌then◌else◌, ◌==◌, is_neg, not_pos, word, add32,
  sub32, length, take, drop, overwrite_at, length-overwrite_at, length-append, take-append-drop,
  take-overwrite_at, drop-overwrite_at, le→leb, ne→==, Bool-cases, done, Returns, Returns-mono,
  if-apply, subst, slice, ◌>>=◌,
}
use psvemmc.Server.State.{Net, Server, recv, recv_loop, recv_all, delivered}
use psvemmc.Server.Transfer.{IsNet}

-- The sockets delivered these bytes, and nothing else changed.
abbrev pub after_recv : Server → List ℕ → ℕ → Server
after_recv s bytes t = record s { received = s.received ++ bytes; clock = t }

-- The bytes that came stand at the offset of the buffer, whether they are all or not.
abbrev pub Receives : Net → Server → List ℕ → ℕ → ℕ → (Bool × List ℕ) × Server → Type 0
Receives net s buffer total off out =
    (bytes : List ℕ) × (t : ℕ) × (out.1 ≡ after_recv s bytes t)
    × (s.clock ≤ t)
    × (out.0.1 ≡ take off buffer ++ (bytes ++ drop (off + length bytes) buffer))
    × (((out.0.0 ≡ true) × (length bytes ≡ total - off))
        ⊎ ((out.0.0 ≡ false)
            × (length bytes < total - off)
            × ((u : ℕ) × (t ≡ suc u)
                × (not_pos (net.recv u s.cli_sock (total - (off + length bytes))).0 ≡ true))))

module _ (net : Net) where
  recv_loop_step :
      (fuel : ℕ) (buffer : List ℕ) (total off : ℕ) (s : Server)
      → off < total
      → total < word
      → total ≤ length buffer
      → recv_loop net (suc fuel) buffer total off s ≡ (
          let got = net.recv s.clock s.cli_sock (total - off) in
          let s' = after_recv s (delivered got) (suc s.clock) in
          if not_pos got.0
          then done ((false, buffer), s')
          else recv_loop net fuel (overwrite_at off buffer got.1) total (add32 off got.0) s')
  unfolding recv_loop
  recv_loop_step fuel buffer total off s h w l =
      let e2 : sub32 total off ≡ total - off = omega arith in
      let fits : off + (total - off) ≤ length buffer = omega arith in
      rw (ne→== total off (omega arith), e2, ◌>>=◌, slice, le→leb _ _ fits, ◌>>=◌, recv, e2)
        (if-apply (not_pos (net.recv s.clock s.cli_sock (total - off)).0) _ _ _)

delivered_none :
    (got : ℕ × List ℕ)
    → not_pos got.0 ≡ true
    → (is_neg got.0 ≡ true) ⊎ (length got.1 ≡ got.0)
    → delivered got ≡ []
delivered_none (r, b) h (inl n) = rw n
delivered_none (r, []) h (inr e) = elim (Bool-cases (is_neg r)) [ inl n ↦ rw n | inr n ↦ rw n ]
delivered_none (r, x ∷ b) h (inr e) = elim (Bool-cases (is_neg r)) [
  | inl n ↦ rw n
  | inr n ↦ absurd (ground arith)
]

Receives-failed :
    (net : Net) (s : Server) (buffer : List ℕ) (total off : ℕ)
    → off < total
    → not_pos (net.recv s.clock s.cli_sock (total - off)).0 ≡ true
    → delivered (net.recv s.clock s.cli_sock (total - off)) ≡ []
    → Receives net s buffer total off (
      (false, buffer),
      after_recv s (delivered (net.recv s.clock s.cli_sock (total - off))) (suc s.clock),
    )
Receives-failed net s buffer total off h failed e =
    let e2 : off + 0 ≡ off = omega arith in
    rw e (
      [],
      suc s.clock,
      refl,
      omega arith,
      rw e2 (sym (take-append-drop off buffer)),
      inr (refl, omega arith, (s.clock, refl, rw e2 failed)),
    )

Receives-more :
    (net : Net) (s : Server) (buffer : List ℕ) (total off : ℕ) (got : ℕ × List ℕ)
    (out : (Bool × List ℕ) × Server)
    → is_neg got.0 ≡ false
    → off + length got.1 ≤ length buffer
    → off + length got.1 ≤ total
    → Receives net
        (after_recv s (delivered got) (suc s.clock))
        (overwrite_at off buffer got.1)
        total
        (off + length got.1)
        out
    → Receives net s buffer total off out
Receives-more net s buffer total off (r, b) out p l m (bytes, t, e, c, eb, res) =
    (b ++ bytes, t, e ∙ came_together, omega arith, eb ∙ stand_together, results res)
  where
    came_together :
        after_recv (after_recv s (delivered (r, b)) (suc s.clock)) bytes t
        ≡ after_recv s (b ++ bytes) t
    came_together = rw (p, append_assoc s.received)

    count : off + length (b ++ bytes) ≡ off + length b + length bytes
    count = omega (arith, length-append b bytes)

    stand_together :
        take (off + length b) (overwrite_at off buffer b)
          ++ (bytes ++ drop (off + length b + length bytes) (overwrite_at off buffer b))
        ≡ take off buffer ++ ((b ++ bytes) ++ drop (off + length (b ++ bytes)) buffer)
    stand_together =
        rw
          (
            take-overwrite_at off buffer b l,
            drop-overwrite_at off (off + length b + length bytes) buffer b (omega arith),
            count,
          )
          (simp append_assoc)

    Failed : ℕ → Type 0
    Failed len = (u : ℕ) × (t ≡ suc u) × (not_pos (net.recv u s.cli_sock len).0 ≡ true)

    results :
        ((out.0.0 ≡ true) × (length bytes ≡ total - (off + length b)))
          ⊎ ((out.0.0 ≡ false)
              × (length bytes < total - (off + length b))
              × Failed (total - (off + length b + length bytes)))
        → ((out.0.0 ≡ true) × (length (b ++ bytes) ≡ total - off))
          ⊎ ((out.0.0 ≡ false)
              × (length (b ++ bytes) < total - off)
              × Failed (total - (off + length (b ++ bytes))))
    results (inl (x, y)) = inl (x, omega (arith, length-append b bytes))
    results (inr (x, y, failed)) = inr (
      x,
      omega (arith, length-append b bytes),
      subst (λ k. Failed (total - k)) (sym count) failed,
    )

module _ (net : Net) (law : IsNet net) where
  came :
      (t sock len : ℕ)
      → (is_neg (net.recv t sock len).0 ≡ true)
        ⊎ (length (net.recv t sock len).1 ≡ (net.recv t sock len).0)
  came t sock len = ground (arith, law.recv_law t sock len)

  -- A round that brings some bytes, given what the rest of the loop does.
  round_more :
      (fuel : ℕ) (buffer : List ℕ) (total off : ℕ) (s : Server) (got : ℕ × List ℕ)
      → total < word
      → total ≤ length buffer
      → total - off < suc fuel
      → off < total
      → not_pos got.0 ≡ false
      → (is_neg got.0 ≡ true) ⊎ ((got.0 ≤ total - off) × (length got.1 ≡ got.0))
      → (let s' = after_recv s (delivered got) (suc s.clock) in
          let off' = off + length got.1 in
          off' ≤ total
          → total - off' < fuel
          → Returns
              (recv_loop net fuel (overwrite_at off buffer got.1) total off' s')
              (Receives net s' (overwrite_at off buffer got.1) total off'))
      → Returns
          (recv_loop net fuel
            (overwrite_at off buffer got.1)
            total
            (add32 off got.0)
            (after_recv s (delivered got) (suc s.clock)))
          (Receives net s buffer total off)
  round_more fuel buffer total off s got w l f o good law' rest =
      let n : is_neg got.0 ≡ false = ground arith in
      let sized : (got.0 ≤ total - off) × (length got.1 ≡ got.0) = ground arith in
      let pos : 0 < got.0 = ground arith in
      let e : add32 off got.0 ≡ off + length got.1 = omega arith in
      rw e (
        Returns-mono
          (recv_loop net fuel (overwrite_at off buffer got.1) total (off + length got.1)
            (after_recv s (delivered got) (suc s.clock)))
          (Receives net (after_recv s (delivered got) (suc s.clock)) (overwrite_at off buffer got.1)
            total (off + length got.1))
          (Receives net s buffer total off)
          (λ out. Receives-more net s buffer total off got out n (omega arith) (omega arith))
          (rest (omega arith) (omega arith)))

  recv_loop_lem :
      (fuel : ℕ) (buffer : List ℕ) (total off : ℕ) (s : Server)
      → total < word
      → total ≤ length buffer
      → off ≤ total
      → total - off < fuel
      → Returns (recv_loop net fuel buffer total off s) (Receives net s buffer total off)
  unfolding recv_loop
  recv_loop_lem zero buffer total off s w l o f = absurd (omega arith)
  recv_loop_lem (suc fuel) buffer total off s w l o f =
      let got = net.recv s.clock s.cli_sock (total - off) in
      let e : off + 0 ≡ off = omega arith in
      let whole : buffer ≡ take off buffer ++ drop (off + 0) buffer =
        rw e (sym (take-append-drop off buffer)) in
      elim (Bool-cases (total == off)) [
        | inl at_end ↦ rw at_end (
          [],
          s.clock,
          ap (λ x. record s { received = x }) (sym (append-nil s.received)),
          omega arith,
          whole,
          inl (refl, ground arith),
        )
        | inr more ↦
            rw (recv_loop_step net fuel buffer total off s (ground arith) w l)
              (elim (Bool-cases (not_pos got.0)) [
                | inl bad ↦ rw bad (
                    Receives-failed net s buffer total off (ground arith) bad
                      (delivered_none got bad (came s.clock s.cli_sock (total - off))))
                | inr good ↦ rw good (
                    round_more fuel buffer total off s got w l f (ground arith) good
                      (law.recv_law s.clock s.cli_sock (total - off))
                      (λ o' f'.
                        recv_loop_lem fuel (overwrite_at off buffer got.1) total
                          (off + length got.1) (after_recv s (delivered got) (suc s.clock)) w
                          (rw (length-overwrite_at off buffer got.1) l) o' f'))
              ])
      ]

-- Receiving into a buffer ends by itself, for any sizes of the pieces that come: the buffer starts
-- with the bytes that were delivered, in order, and keeps the rest of what it held; they are as many
-- as were asked for, or they are fewer and the last call of `recv`, which asked for all that was still
-- missing, brought nothing. Nothing but the input and the clock changes.
pub recv_all_lem :
    (net : Net) (buffer : List ℕ) (bytes_to_receive : ℕ) (s : Server)
    → IsNet net
    → bytes_to_receive < word
    → bytes_to_receive ≤ length buffer
    → Returns (recv_all net buffer bytes_to_receive s) (Receives net s buffer bytes_to_receive 0)
unfolding recv_all
recv_all_lem net buffer total s law w l =
    recv_loop_lem net law (suc total) buffer total 0 s w l (omega arith) (omega arith)
