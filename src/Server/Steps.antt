-- ===== src/Server/Steps.antt =====
-- server/src/main.c: how the handlers proceed, call by call.
use psvemmc.Base.{
  ℕ, suc, ◌+◌, ◌≤◌, ◌<◌, ◌≡◌, refl, ap, inl, inr, Bool, true, false, List, ◌++◌, arith, word,
  length, le→leb, overwrite, Exec, Outcome, done, invalid_access, out_of_fuel, Returns,
  Returns-bind, drop, drop_all, append-nil, ◌∙◌, copy_into, ◌>>=◌,
}
use psvemmc.Driver.{Driver}
use psvemmc.Server.State.{
  Net, Server, recv, send, recv_all, accepted, delivered, in_driver, run_driver,
}
use psvemmc.Server.Transfer.{IsNet, after_send}
use psvemmc.Server.Receive.{after_recv, Receives, recv_all_lem}

-- A call of the driver, and what follows it.
pub in_driver-bind :
    {A B : Type 0} (m : Exec Driver A) (f : A → Exec Server B) (s : Server)
    (R : A × Driver → Type 0) (Q : B × Server → Type 0)
    → Returns (m s.driver) R
    → ((a : A) (d : Driver) → R (a, d) → Returns (f a (record s { driver = d })) Q)
    → Returns ((in_driver m >>= f) s) Q
in_driver-bind {A} {B} m f s R Q h k = go (m s.driver) h
  where
    go :
        (o : Outcome (A × Driver))
        → Returns o R
        → Returns
            (elim (run_driver o s) [
              | done (a, s') ↦ f a s'
              | invalid_access ↦ invalid_access
              | out_of_fuel ↦ out_of_fuel
            ])
            Q
    go (done (a, d)) p = k a d p
    go invalid_access p = absurd p
    go out_of_fuel p = absurd p

-- A copy that fits, and what follows it.
pub copy_into-bind :
    {B : Type 0} (xs ys : List ℕ) (f : List ℕ → Exec Server B) (s : Server)
    (Q : B × Server → Type 0)
    → length ys ≤ length xs
    → Returns (f (overwrite xs ys) s) Q
    → Returns ((copy_into xs ys >>= f) s) Q
copy_into-bind xs ys f s Q h p = rw (Returns, ◌>>=◌, copy_into, le→leb _ _ h) p

module _ (net : Net) where
  pub recv-bind :
      {B : Type 0} (len : ℕ) (f : ℕ × List ℕ → Exec Server B) (s : Server)
      → (recv net len >>= f) s ≡ (
          let got = net.recv s.clock s.cli_sock len in
          f got (after_recv s (delivered got) (suc s.clock)))
  unfolding recv
  recv-bind len f s = refl

  -- One call of `send`, whose result is the handler's.
  pub send_lem :
      (bytes : List ℕ) (s : Server)
      → send net bytes s ≡ (
          let res = net.send s.clock s.cli_sock bytes in
          done (res, after_send s (accepted res bytes) (suc s.clock)))
  unfolding send
  send_lem bytes s = refl

-- One call of `send` with the bytes: what it took was sent, all of them or a first part.
abbrev pub Sent : Net → Server → List ℕ → Server → Type 0
Sent net s bytes s' =
    s' ≡ after_send s (accepted (net.send s.clock s.cli_sock bytes) bytes) (suc s.clock)

-- Receiving a buffer, and what follows it when all came and when only a part came.
module _ (net : Net) (law : IsNet net) where
  received-bind :
      {B : Type 0} (f : Bool × List ℕ → Exec Server B) (Q : B × Server → Type 0) (b b' : Bool)
      (buffer buffer' : List ℕ) (s s' : Server)
      → b ≡ b'
      → buffer ≡ buffer'
      → s ≡ s'
      → Returns (f (b', buffer') s') Q
      → Returns (f (b, buffer) s) Q
  received-bind f Q b b' buffer buffer' s s' p q r h = rw (p, q, r) h

  pub recv_all-bind :
      {B : Type 0} (buffer : List ℕ) (n : ℕ) (f : Bool × List ℕ → Exec Server B) (s : Server)
      (Q : B × Server → Type 0)
      → n < word
      → length buffer ≡ n
      → ((bytes : List ℕ) (t : ℕ)
          → length bytes ≡ n
          → s.clock ≤ t
          → Returns (f (true, bytes) (after_recv s bytes t)) Q)
      → ((bytes : List ℕ) (t : ℕ)
          → length bytes < n
          → s.clock ≤ t
          → Returns (f (false, bytes ++ drop (length bytes) buffer) (after_recv s bytes t)) Q)
      → Returns ((recv_all net buffer n >>= f) s) Q
  recv_all-bind buffer n f s Q w l all part =
      Returns-bind (recv_all net buffer n) f s (Receives net s buffer n 0) Q
        (recv_all_lem net buffer n s law w (omega arith)) (λ (b, held) s' h. go b held s' h)
    where
      go :
          (b : Bool) (held : List ℕ) (s' : Server)
          → Receives net s buffer n 0 ((b, held), s')
          → Returns (f (b, held) s') Q
      go b held s' (bytes, t, e, c, eb, inl (x, y)) =
          received-bind f Q b true held bytes s' (after_recv s bytes t) x
            (eb
              ∙ ap (λ r. bytes ++ r) (drop_all (0 + length bytes) buffer (omega arith))
              ∙ append-nil bytes)
            e (all bytes t (omega arith) c)
      go b held s' (bytes, t, e, c, eb, inr (x, y, failed)) =
          let z : 0 + length bytes ≡ length bytes = omega arith in
          received-bind f Q b false held (bytes ++ drop (length bytes) buffer) s'
            (after_recv s bytes t) x (eb ∙ ap (λ k. bytes ++ drop k buffer) z) e
            (part bytes t (omega arith) c)
