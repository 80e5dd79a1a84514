-- ===== src/Client/Buffers.antt =====
-- client/psvemmc/psvemmc.cpp: what is received into a whole buffer.
use psvemmc.Base.{
  ℕ, suc, ◌-◌, ◌≤◌, ◌<◌, ◌≡◌, ◌⊎◌, inl, inr, ap, ◌∙◌, Bool, true, false, List, [], ◌++◌, append-nil,
  arith, word, length, take, drop, drop_all, Exec, Returns, Returns-mono, Returns-bind, ◌>>=◌,
}
use psvemmc.Client.State.{Peer, Client, IsPeer, recv_loop, recv_all}
use psvemmc.Client.Receive.{after_recv, GaveUp, Receives, recv_loop_lem}

module _ (peer : Peer) (law : IsPeer peer) where
  pub recv_all_lem :
      (buffer : List ℕ) (total : ℕ) (c : Client)
      → total < word
      → length buffer ≡ total
      → total ≤ length c.incoming
      → Returns (recv_all peer buffer total c) (λ out.
        ((out.0.0 ≡ true)
          × ((t : ℕ) × (out.1 ≡ after_recv c total t) × (c.clock ≤ t))
          × (out.0.1 ≡ take total c.incoming))
        ⊎ ((out.0.0 ≡ false) × (length out.0.1 ≡ total) × GaveUp peer c out.1))
  unfolding recv_all
  recv_all_lem buffer total c w l there =
      let e : total - 0 ≡ total = omega arith in
      Returns-mono (recv_loop peer (suc total) buffer total 0 c) (Receives peer c buffer total 0) _
        go
        (recv_loop_lem peer law (suc total) buffer total 0 c w (omega arith) (omega arith)
          (omega arith) (omega arith))
    where
      nothing_left : drop total buffer ≡ []
      nothing_left = drop_all total buffer (omega arith)

      go :
          (out : (Bool × List ℕ) × Client)
          → Receives peer c buffer total 0 out
          → ((out.0.0 ≡ true)
              × ((t : ℕ) × (out.1 ≡ after_recv c total t) × (c.clock ≤ t))
              × (out.0.1 ≡ take total c.incoming))
            ⊎ ((out.0.0 ≡ false) × (length out.0.1 ≡ total) × GaveUp peer c out.1)
      go out (inl (f, (t, e, late), held)) =
          let z : total - 0 ≡ total = omega arith in
          inl (
            f,
            (t, e ∙ ap (λ n. after_recv c n t) z, late),
            held
                ∙ ap (λ n. take n c.incoming ++ drop total buffer) z
                ∙ ap (λ x. take total c.incoming ++ x) nothing_left
                ∙ append-nil (take total c.incoming),
          )
      go out (inr (f, len, g)) = inr (f, omega arith, g)

  -- Receiving a buffer, and what follows when all came and when a call failed.
  pub recv_all-bind :
      {B : Type 0} (buffer : List ℕ) (total : ℕ) (f : Bool × List ℕ → Exec Client B) (c : Client)
      (Q : B × Client → Type 0)
      → total < word
      → length buffer ≡ total
      → total ≤ length c.incoming
      → ((t : ℕ) → c.clock ≤ t → Returns (f (true, take total c.incoming) (after_recv c total t)) Q)
      → ((held : List ℕ) (c' : Client)
          → length held ≡ total
          → GaveUp peer c c'
          → Returns (f (false, held) c') Q)
      → Returns ((recv_all peer buffer total >>= f) c) Q
  recv_all-bind buffer total f c Q w l there all part =
      Returns-bind (recv_all peer buffer total) f c _ Q (recv_all_lem buffer total c w l there)
        (λ (b, held) c' h. go b held c' h)
    where
      go :
          (b : Bool) (held : List ℕ) (c' : Client)
          → ((b ≡ true)
              × ((t : ℕ) × (c' ≡ after_recv c total t) × (c.clock ≤ t))
              × (held ≡ take total c.incoming))
            ⊎ ((b ≡ false) × (length held ≡ total) × GaveUp peer c c')
          → Returns (f (b, held) c') Q
      go b held c' (inl (x, (t, e, late), y)) = rw (x, y, e) (all t late)
      go b held c' (inr (x, len, g)) = rw x (part held c' len g)
