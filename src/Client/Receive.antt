-- ===== src/Client/Receive.antt =====
-- client/psvemmc/psvemmc.cpp: what the loop that receives a whole buffer does, while the bytes come and
-- after the server has gone.
use psvemmc.Base.{
  ℕ, zero, suc, ◌+◌, ◌-◌, ◌≤◌, ◌<◌, ◌≡◌, ◌⊎◌, inl, inr, refl, ap, sym, ◌∙◌, Bool, true, false, List,
  [], ◌++◌, append_assoc, arith, if◌then◌else◌, ◌==◌, word, add32, sub32, length, take, drop,
  overwrite_at, length-take, length-drop, length-overwrite_at, take-append-drop, take-overwrite_at,
  drop-overwrite_at, take-add, drop-drop, le→leb, ne→==, ==→eq, Bool-cases, done, out_of_fuel,
  Returns, Returns-mono, if-apply, slice, ◌>>=◌,
}
use psvemmc.Client.State.{Peer, Client, IsPeer, socket_error, moved, recv, recv_loop}

-- Bytes were read.
abbrev pub after_recv : Client → ℕ → ℕ → Client
after_recv c n t = record c { incoming = drop n c.incoming; clock = t }

-- A call of a socket failed.
abbrev pub Failure : Peer → Type 0
Failure peer =
    ((t len there : ℕ) × (peer.recv t len there ≡ socket_error))
    ⊎ ((t : ℕ) × (bytes : List ℕ) × (peer.send t bytes ≡ socket_error))

-- A call failed behind some bytes, and the socket was closed.
abbrev pub GaveUp : Peer → Client → Client → Type 0
GaveUp peer c c' =
    (n t : ℕ) × (c' ≡ record c { incoming = drop n c.incoming; closes = suc c.closes; clock = t })
    × Failure peer

-- All came and stand in the buffer in order, or a call failed.
abbrev pub Receives : Peer → Client → List ℕ → ℕ → ℕ → (Bool × List ℕ) × Client → Type 0
Receives peer c buffer total off out =
    ((out.0.0 ≡ true)
      × ((t : ℕ) × (out.1 ≡ after_recv c (total - off) t) × (c.clock ≤ t))
      × (out.0.1 ≡ take off buffer ++ (take (total - off) c.incoming ++ drop total buffer)))
    ⊎ ((out.0.0 ≡ false) × (length out.0.1 ≡ length buffer) × GaveUp peer c out.1)

module _ (peer : Peer) where
  recv_loop_step :
      (fuel : ℕ) (buffer : List ℕ) (total off : ℕ) (c : Client)
      → off < total
      → total < word
      → total ≤ length buffer
      → recv_loop peer (suc fuel) buffer total off c ≡ (
          let r = peer.recv c.clock (total - off) (length c.incoming) in
          let c' = after_recv c (moved r) (suc c.clock) in
          if r == socket_error
          then done ((false, buffer), record c' { closes = suc c.closes })
          else recv_loop peer fuel
              (overwrite_at off buffer (take (moved r) c.incoming))
              total
              (add32 off r)
              c')
  unfolding recv_loop
  recv_loop_step fuel buffer total off c h w l =
      let e2 : sub32 total off ≡ total - off = omega arith in
      let fits : off + (total - off) ≤ length buffer = omega arith in
      rw (ne→== total off (omega arith), e2, ◌>>=◌, slice, le→leb _ _ fits, ◌>>=◌, recv, e2)
        (if-apply (peer.recv c.clock (total - off) (length c.incoming) == socket_error) _ _ _)

-- A round that brings `r` bytes, and what the rest of the loop does with the others.
Receives-more :
    (peer : Peer) (c : Client) (buffer : List ℕ) (total off r : ℕ) (out : (Bool × List ℕ) × Client)
    → r ≤ total - off
    → r ≤ length c.incoming
    → off < total
    → total ≤ length buffer
    → Receives peer
        (after_recv c r (suc c.clock))
        (overwrite_at off buffer (take r c.incoming))
        total
        (off + r)
        out
    → Receives peer c buffer total off out
Receives-more peer c buffer total off r out p q h l (inr (f, len, (n, t, e, why))) = inr (
  f,
  len ∙ length-overwrite_at off buffer (take r c.incoming),
  (
    r + n,
    t,
    e
        ∙ ap (λ x. record c { incoming = x; closes = suc c.closes; clock = t })
            (drop-drop r n c.incoming),
    why,
  ),
)
Receives-more peer c buffer total off r out p q h l (inl (f, (t, e, late), held)) = inl (
  f,
  (
    t,
    e
        ∙ ap (λ x. record c { incoming = x; clock = t })
            (drop-drop r (total - (off + r)) c.incoming ∙ ap (λ n. drop n c.incoming) count),
    omega arith,
  ),
  held ∙ stand_together,
)
  where
    count : r + (total - (off + r)) ≡ total - off
    count = omega arith

    bytes : List ℕ
    bytes = take r c.incoming

    tail : List ℕ
    tail =
        take (total - (off + r)) (drop r c.incoming) ++ drop total (overwrite_at off buffer bytes)

    many : length bytes ≡ r
    many = omega (arith, length-take r c.incoming)

    fits : off + length bytes ≤ length buffer
    fits = omega (arith, many)

    stand_together :
        take (off + r) (overwrite_at off buffer bytes)
          ++ (take (total - (off + r)) (drop r c.incoming)
              ++ drop total (overwrite_at off buffer bytes))
        ≡ take off buffer ++ (take (total - off) c.incoming ++ drop total buffer)
    stand_together =
        ap (λ n. take n (overwrite_at off buffer bytes) ++ tail) (ap (λ n. off + n) (sym many))
        ∙ ap (λ x. x ++ tail) (take-overwrite_at off buffer bytes fits)
        ∙ append_assoc (take off buffer) bytes tail
        ∙ ap (λ x. take off buffer ++ x)
            (ap (λ x. bytes ++ (take (total - (off + r)) (drop r c.incoming) ++ x))
                (drop-overwrite_at off total buffer bytes (omega (arith, many)))
              ∙ sym (
                  append_assoc bytes (take (total - (off + r)) (drop r c.incoming))
                    (drop total buffer))
              ∙ ap (λ x. x ++ drop total buffer)
                  (take-add r (total - (off + r)) c.incoming ∙ ap (λ n. take n c.incoming) count))

module _ (peer : Peer) (law : IsPeer peer) where
  -- A call that did not fail brought at least one byte.
  some_came :
      (t len there : ℕ)
      → 0 < len
      → len ≤ there
      → (peer.recv t len there == socket_error) ≡ false
      → (moved (peer.recv t len there) ≡ peer.recv t len there)
        × (peer.recv t len there ≤ len)
        × (0 < peer.recv t len there)
        × (peer.recv t len there ≤ there)
  some_came t len there p q e = ground (arith, law.recv_law t len there, law.progress t len there)

  pub recv_loop_lem :
      (fuel : ℕ) (buffer : List ℕ) (total off : ℕ) (c : Client)
      → total < word
      → total ≤ length buffer
      → off ≤ total
      → total - off ≤ length c.incoming
      → total - off < fuel
      → Returns (recv_loop peer fuel buffer total off c) (Receives peer c buffer total off)
  unfolding recv_loop
  recv_loop_lem zero buffer total off c w l o there f = absurd (omega arith)
  recv_loop_lem (suc fuel) buffer total off c w l o there f = elim (Bool-cases (total == off)) [
    | inl at_end ↦ rw at_end (ended (==→eq total off at_end))
    | inr more ↦
        rw (recv_loop_step peer fuel buffer total off c (ground arith) w l)
          (elim (Bool-cases (r == socket_error)) [
            | inl bad ↦ rw bad (
                inr (
                  refl,
                  refl,
                  (
                    0,
                    suc c.clock,
                    refl,
                    inl (c.clock, total - off, length c.incoming, ==→eq r socket_error bad),
                  ),
                ))
            | inr good ↦
                let came =
                  some_came c.clock (total - off) (length c.incoming) (ground arith) there good in
                let e : add32 off r ≡ off + r = omega arith in
                let c' = after_recv c r (suc c.clock) in
                let held = overwrite_at off buffer (take r c.incoming) in
                rw (good, e)
                  (Returns-mono (recv_loop peer fuel held total (off + r) c')
                    (Receives peer c' held total (off + r)) (Receives peer c buffer total off)
                    (λ out.
                      Receives-more peer c buffer total off r out came.1 came.3 (ground arith) l)
                    (recv_loop_lem fuel held total (off + r) c' w
                      (omega (arith, length-overwrite_at off buffer (take r c.incoming)))
                      (omega arith) (omega (arith, length-drop r c.incoming)) (omega arith)))
          ])
  ]
    where
      r : ℕ
      r = peer.recv c.clock (total - off) (length c.incoming)

      ended : total ≡ off → Receives peer c buffer total off ((true, buffer), c)
      ended e =
          let none_left : total - off ≡ 0 = omega arith in
          inl (
            refl,
            (c.clock, ap (λ n. after_recv c n c.clock) (sym none_left), omega arith),
            rw (none_left, e) (sym (take-append-drop off buffer)),
          )

-- If the server closes the connection before a buffer is full, so that recv returns 0, the loop never
-- ends: whatever fuel it is given, it is still in the loop.
recv_loop_closed :
    (peer : Peer) (fuel : ℕ) (buffer : List ℕ) (total off : ℕ) (c : Client)
    → ((t len : ℕ) → peer.recv t len 0 ≡ 0)
    → off < total
    → total < word
    → total ≤ length buffer
    → recv_loop peer fuel buffer total off (record c { incoming = [] }) ≡ out_of_fuel
unfolding recv_loop
recv_loop_closed peer zero buffer total off c gone h w l = refl
recv_loop_closed peer (suc fuel) buffer total off c gone h w l =
    let e : add32 off 0 ≡ off = omega arith in
    recv_loop_step peer fuel buffer total off (record c { incoming = [] }) h w l
    ∙ rw (gone c.clock (total - off), e)
        (recv_loop_closed peer fuel (overwrite_at off buffer []) total off
          (record c { clock = suc c.clock }) gone h w
          (omega (arith, length-overwrite_at off buffer [])))
