-- ===== src/Netlog/Frames.antt =====
-- driver/net.c: send_message, which puts a message on the wire in a frame of MSG_SIZE bytes.
use psvemmc.Base.{
  ℕ, Bool, zero, suc, ◌+◌, ◌-◌, ◌≤◌, ◌<◌, ◌≡◌, ◌⊎◌, inl, inr, refl, sym, ◌∙◌, true, false, List, [],
  ◌++◌, append-nil, append_assoc, arith, if◌then◌else◌, ◌==◌, is_neg, add32, sub32, length, take,
  drop, length-take, length-drop, length-overwrite, overwrite, length-replicate, take_all, subst,
  take-add, drop-drop, drop_all, le→leb, ne→==, Bool-cases, ==→eq, ==→ne, Outcome, done, Returns,
  Returns-mono, if-apply, ◌>>=◌, slice, copy_into, leb,
}
use psvemmc.Netlog.{
  Kernel, Link, Message, too_long, zeros, send_loop, send_message, msg_size, taken,
}

-- ksceNetSend fails, or takes at least one and at most all of the bytes.
pub record IsKernel (k : Kernel) : Type 0 where
  pub send_law :
      (t sock : ℕ) (bytes : List ℕ)
      → 0 < length bytes
      → (is_neg (k.send t sock bytes) ≡ true)
        ⊎ ((0 < k.send t sock bytes) × (k.send t sock bytes ≤ length bytes))

-- The sockets took these bytes, and nothing else changed.
abbrev pub after_send : Link → List ℕ → ℕ → Link
after_send s bytes t = record s { sent = s.sent ++ bytes; clock = t }

-- The socket took the bytes, or all up to a call that failed.
abbrev pub Sends : Kernel → Link → List ℕ → ℕ × Link → Type 0
Sends k s bytes out =
    (n t : ℕ) × (out ≡ (0, after_send s (take n bytes) t))
    × ((n ≡ length bytes)
        ⊎ ((n < length bytes)
            × ((u : ℕ) × (is_neg (k.send u s.client_sock (drop n bytes)) ≡ true))))

Sends-none : (k : Kernel) (s : Link) (bytes : List ℕ) → bytes ≡ [] → Sends k s bytes (0, s)
Sends-none k s bytes e = rw e (0, s.clock, rw (append-nil s.sent) refl, inl refl)

-- A call that fails leaves the bytes unsent.
Sends-failed :
    (k : Kernel) (s : Link) (bytes : List ℕ)
    → 0 < length bytes
    → is_neg (k.send s.clock s.client_sock bytes) ≡ true
    → Sends k s bytes
        (0, after_send s (taken (k.send s.clock s.client_sock bytes) bytes) (suc s.clock))
Sends-failed k s bytes h e = rw e (0, suc s.clock, refl, inr (h, (s.clock, e)))

-- A call that takes `r` bytes, and what the rest of the loop does with the others.
Sends-more :
    (k : Kernel) (s : Link) (bytes : List ℕ) (r : ℕ) (out : ℕ × Link)
    → is_neg r ≡ false
    → r ≤ length bytes
    → Sends k (after_send s (taken r bytes) (suc s.clock)) (drop r bytes) out
    → Sends k s bytes out
Sends-more k s bytes r out p l (n, t, e, res) = (r + n, t, e ∙ together, results res)
  where
    together :
        ◌≡◌ {A = ℕ × Link}
          (0, after_send (after_send s (taken r bytes) (suc s.clock)) (take n (drop r bytes)) t)
          (0, after_send s (take (r + n) bytes) t)
    together = rw (p, append_assoc s.sent, take-add r n bytes) refl

    results :
        (n ≡ length (drop r bytes))
          ⊎ ((n < length (drop r bytes))
              × ((u : ℕ) × (is_neg (k.send u s.client_sock (drop n (drop r bytes))) ≡ true)))
        → (r + n ≡ length bytes)
          ⊎ ((r + n < length bytes)
              × ((u : ℕ) × (is_neg (k.send u s.client_sock (drop (r + n) bytes)) ≡ true)))
    results (inl a) = inl (omega (arith, length-drop r bytes))
    results (inr (a, (u, b))) =
        inr (omega (arith, length-drop r bytes), (u, rw (sym (drop-drop r n bytes)) b))

module _ (k : Kernel) where
  send_loop_step :
      (fuel n : ℕ) (s : Link)
      → length s.message_buffer ≡ msg_size
      → n < msg_size
      → send_loop k (suc fuel) n s ≡ (
          let bytes = drop n s.message_buffer in
          let r = k.send s.clock s.client_sock bytes in
          let s' = after_send s (taken r bytes) (suc s.clock) in
          if is_neg r then done (0, s') else send_loop k fuel (add32 n r) s')
  unfolding send_loop
  send_loop_step fuel n s l h =
      let e2 : sub32 msg_size n ≡ msg_size - n = omega arith in
      let fits : n + (msg_size - n) ≤ length s.message_buffer = omega arith in
      let all =
        take_all (msg_size - n) (drop n s.message_buffer)
          (omega (arith, length-drop n s.message_buffer)) in
      rw (ne→== n msg_size (omega arith), e2, ◌>>=◌, slice, le→leb _ _ fits, all)
        (if-apply (is_neg (k.send s.clock s.client_sock (drop n s.message_buffer))) _ _ _)

  send_loop_end :
      (fuel n : ℕ) (s : Link)
      → length s.message_buffer ≡ msg_size
      → (n == msg_size) ≡ true
      → Returns (send_loop k (suc fuel) n s) (Sends k s (drop n s.message_buffer))
  unfolding send_loop
  send_loop_end fuel n s l e = rw e (
      Sends-none k s (drop n s.message_buffer)
        (drop_all n s.message_buffer (omega (arith, ==→eq n msg_size e))))

module _ (k : Kernel) (law : IsKernel k) where
  send_loop_lem :
      (fuel n : ℕ) (s : Link)
      → length s.message_buffer ≡ msg_size
      → n ≤ msg_size
      → msg_size - n < fuel
      → Returns (send_loop k fuel n s) (Sends k s (drop n s.message_buffer))
  send_loop_lem zero n s l h f = let no : ⊥ = omega arith in absurd no
  send_loop_lem (suc fuel) n s l h f = elim (Bool-cases (n == msg_size)) [
    | inl e ↦ send_loop_end k fuel n s l e
    | inr e ↦
        further (λ r s' l h f. send_loop_lem fuel (n + r) s' l h f)
          (omega (arith, ==→ne n msg_size e))
  ]
    where
      sent : ℕ → Type 0
      sent r =
          let bytes = drop n s.message_buffer in
          let s' = after_send s (taken r bytes) (suc s.clock) in
          Returns (if is_neg r then done (0, s') else send_loop k fuel (add32 n r) s')
            (Sends k s bytes)

      Rest : Type 0
      Rest =
          (r : ℕ) (s' : Link)
          → length s'.message_buffer ≡ msg_size
          → n + r ≤ msg_size
          → msg_size - (n + r) < fuel
          → Returns (send_loop k fuel (n + r) s') (Sends k s' (drop (n + r) s'.message_buffer))

      took : (r : ℕ) → Rest → n < msg_size → (0 < r) → r ≤ length (drop n s.message_buffer) → sent r
      took r rec h pos le =
          let bytes = drop n s.message_buffer in
          let s' = after_send s (taken r bytes) (suc s.clock) in
          let len = length-drop n s.message_buffer in
          let small : n + r ≤ msg_size = omega arith in
          let p : is_neg r ≡ false = ground arith in
          let wrap : add32 n r ≡ n + r = omega arith in
          let go : ℕ → Outcome (ℕ × Link) = λ m. send_loop k fuel m s' in
          let P : Bool → ℕ → Type 0 =
            λ b m. Returns (if b then done (0, s') else go m) (Sends k s bytes) in
          subst (λ b. P b (add32 n r)) (sym p)
            (subst (P false) (sym wrap) (
              Returns-mono (go (n + r)) _ (Sends k s bytes)
                (λ out h. Sends-more k s bytes r out p le (rw (drop-drop n r s.message_buffer) h))
                (rec r s' l small (omega arith))))

      further :
          Rest
          → n < msg_size
          → Returns (send_loop k (suc fuel) n s) (Sends k s (drop n s.message_buffer))
      further rec h =
          let bytes = drop n s.message_buffer in
          let r = k.send s.clock s.client_sock bytes in
          let s' = after_send s (taken r bytes) (suc s.clock) in
          let go = send_loop k fuel (add32 n r) s' in
          let some_left : 0 < length bytes = omega (arith, length-drop n s.message_buffer) in
          rw (send_loop_step k fuel n s l h)
            (elim (law.send_law s.clock s.client_sock bytes some_left) [
              | inl e ↦
                  subst (λ b. Returns (if b then done (0, s') else go) (Sends k s bytes)) (sym e)
                    (Sends-failed k s bytes some_left e)
              | inr (pos, le) ↦ took r rec h pos le
            ])

-- The frame of a message: its first `size` bytes, and zeros up to MSG_SIZE.
abbrev pub frame : Message → List ℕ
frame msg = overwrite (zeros msg_size) (take msg.size msg.bytes)

-- A message that fits into a frame, and memory that holds it.
abbrev pub Fits : Message → Type 0
Fits msg = (msg.size ≤ msg_size) × (msg.size ≤ length msg.bytes)

pub length-frame : (msg : Message) → length (frame msg) ≡ msg_size
length-frame msg = length-overwrite (zeros msg_size) _ ∙ length-replicate {A = ℕ} msg_size 0

pub too_long-Fits : (msg : Message) → Fits msg → too_long msg.size ≡ false
too_long-Fits msg (f, g) = ground arith

abbrev pub set_buffer : Message → Link → Link
set_buffer msg s = record s { message_buffer = frame msg }

send_message-send_loop :
    (k : Kernel) (fuel : ℕ) (msg : Message) (s : Link)
    → Fits msg
    → send_message k fuel msg s ≡ send_loop k fuel 0 (set_buffer msg s)
unfolding send_message
send_message-send_loop k fuel msg s (h, g) =
    let whole : leb (0 + msg.size) (length msg.bytes) ≡ true = le→leb _ _ (omega arith) in
    let room : leb (length (take msg.size msg.bytes)) (length (zeros msg_size)) ≡ true =
      le→leb _ _
        (omega (arith, length-take msg.size msg.bytes, length-replicate {A = ℕ} msg_size 0)) in
    rw (too_long-Fits msg (h, g), if-apply, ◌>>=◌, slice, whole, copy_into, room) refl

module _ (k : Kernel) (law : IsKernel k) where
  pub send_message_lem :
      (fuel : ℕ) (msg : Message) (s : Link)
      → msg_size < fuel
      → Fits msg
      → Returns (send_message k fuel msg s) (Sends k (set_buffer msg s) (frame msg))
  send_message_lem fuel msg s f h =
      rw (send_message-send_loop k fuel msg s h) (
        send_loop_lem k law fuel 0 (set_buffer msg s) (length-frame msg) (omega arith)
          (omega arith))
