-- ===== src/Base/Effects.antt =====
-- A C function that reads and writes a state: it returns, or uses memory that is not its own, or
-- is still in a loop when the fuel of the model ends.
use Prim.Native.Nat.{ℕ, ◌+◌}
use mathlib.Core.Path.{◌≡◌, refl}
use mathlib.Core.Bool.{Bool, true, false, not}
use mathlib.Core.List.{List}
use psvemmc.Base.Tests.{if◌then◌else◌, leb}
use psvemmc.Base.Lists.{length, take, drop, overwrite}

pub data Outcome (A : Type 0) : Type 0 where
  done : A → Outcome A
  invalid_access : Outcome A
  out_of_fuel : Outcome A

abbrev pub Exec : Type 0 → Type 0 → Type 0
Exec S A = S → Outcome (A × S)

module _ {S : Type 0} where
  abbrev pub pure : {A : Type 0} → A → Exec S A
  pure a s = done (a, s)

  abbrev pub fault : {A : Type 0} → Exec S A
  fault s = invalid_access

  abbrev pub starve : {A : Type 0} → Exec S A
  starve s = out_of_fuel

  -- The bytes of a C memory region; a region that leaves the memory is invalid.
  abbrev pub slice : ℕ → ℕ → List ℕ → Exec S (List ℕ)
  slice off n xs s =
      if leb (off + n) (length xs) then done (take n (drop off xs), s) else invalid_access

  -- A copy into memory; more bytes than the memory has are invalid.
  abbrev pub copy_into : List ℕ → List ℕ → Exec S (List ℕ)
  copy_into xs ys s =
      if leb (length ys) (length xs) then done (overwrite xs ys, s) else invalid_access

  abbrev pub gets : {A : Type 0} → (S → A) → Exec S A
  gets f s = done (f s, s)

  abbrev pub modify : (S → S) → Exec S (Unit {0})
  modify f s = done (tt, f s)

  infixl 5 ◌>>=◌ ◌>>◌
  abbrev pub ◌>>=◌ : {A B : Type 0} → Exec S A → (A → Exec S B) → Exec S B
  ◌>>=◌ m f s = elim (m s) [
    | done (a, s') ↦ f a s'
    | invalid_access ↦ invalid_access
    | out_of_fuel ↦ out_of_fuel
  ]

  abbrev pub ◌>>◌ : {A B : Type 0} → Exec S A → Exec S B → Exec S B
  m >> k = m >>= λ _. k

-- A test between two functions of the state is a test between their results.
pub if-apply :
    {S X : Type 0} (b : Bool) (f g : S → X) (s : S)
    → (if b then f else g) s ≡ (if b then f s else g s)
if-apply true f g s = refl
if-apply false f g s = refl

-- Total correctness: the call returns, and the result and the state after it satisfy `Q`.
abbrev pub Returns : {A : Type 0} → Outcome A → (A → Type 0) → Type 0
Returns (done a) Q = Q a
Returns invalid_access Q = ⊥
Returns out_of_fuel Q = ⊥

pub Returns-mono :
    {A : Type 0} (o : Outcome A) (P Q : A → Type 0)
    → ((a : A) → P a → Q a)
    → Returns o P
    → Returns o Q
Returns-mono (done a) P Q h p = h a p
Returns-mono invalid_access P Q h p = p
Returns-mono out_of_fuel P Q h p = p

-- What a computation returns is its own result.
pub Returns-done :
    {A : Type 0} (o : Outcome A) (P : A → Type 0)
    → Returns o P
    → Returns o (λ a. P a × (o ≡ done a))
Returns-done (done a) P p = (p, refl)
Returns-done invalid_access P p = p
Returns-done out_of_fuel P p = p

pub Returns-bind :
    {S A B : Type 0} (m : Exec S A) (f : A → Exec S B) (s : S) (P : A × S → Type 0)
    (Q : B × S → Type 0)
    → Returns (m s) P
    → ((a : A) (s' : S) → P (a, s') → Returns (f a s') Q)
    → Returns ((m >>= f) s) Q
Returns-bind {S} {A} {B} m f s P Q h k = go (m s) h
  where
    go :
        (o : Outcome (A × S))
        → Returns o P
        → Returns
            (elim o [
              | done (a, s') ↦ f a s'
              | invalid_access ↦ invalid_access
              | out_of_fuel ↦ out_of_fuel
            ])
            Q
    go (done (a, s')) p = k a s' p
    go invalid_access p = absurd p
    go out_of_fuel p = absurd p

-- A call behind a test, and behind a negated guard.
pub Returns-if :
    {A : Type 0} (b : Bool) (x y : Outcome A) (Q : A → Type 0)
    → (b ≡ true → Returns x Q)
    → (b ≡ false → Returns y Q)
    → Returns (if b then x else y) Q
Returns-if true x y Q hx hy = hx refl
Returns-if false x y Q hx hy = hy refl

pub Returns-unless :
    {A : Type 0} (b : Bool) (x y : Outcome A) (Q : A → Type 0)
    → (b ≡ false → Returns x Q)
    → (b ≡ true → Returns y Q)
    → Returns (if not b then x else y) Q
Returns-unless true x y Q hx hy = hy refl
Returns-unless false x y Q hx hy = hx refl

pub unless-true : {A : Type 0} (b : Bool) (x y : A) → b ≡ true → (if not b then x else y) ≡ y
unless-true true x y e = refl
unless-true false x y e = cc

-- A guard in front of two functions of the state.
pub guard-Returns :
    {S A : Type 0} (b : Bool) (f g : Exec S A) (s : S) (Q : A × S → Type 0)
    → (b ≡ false → Returns (f s) Q)
    → (b ≡ true → Returns (g s) Q)
    → Returns ((if not b then f else g) s) Q
guard-Returns true f g s Q hf hg = hg refl
guard-Returns false f g s Q hf hg = hf refl

-- A test in front of two functions of the state, and behind one.
pub branch-Returns :
    {S A : Type 0} (b : Bool) (f g : Exec S A) (s : S) (Q : A × S → Type 0)
    → (b ≡ true → Returns (f s) Q)
    → (b ≡ false → Returns (g s) Q)
    → Returns ((if b then f else g) s) Q
branch-Returns true f g s Q hf hg = hf refl
branch-Returns false f g s Q hf hg = hg refl

-- What a call does after one that returns.
pub bind-outcome :
    {S A B : Type 0} (m : Exec S A) (f : A → Exec S B) (s : S) (P : A × S → Type 0)
    (x : Outcome (B × S))
    → Returns (m s) P
    → ((a : A) (s' : S) → P (a, s') → f a s' ≡ x)
    → (m >>= f) s ≡ x
bind-outcome {S} {A} {B} m f s P x h k = go (m s) h
  where
    go :
        (o : Outcome (A × S))
        → Returns o P
        → (elim o [
          | done (a, s') ↦ f a s'
          | invalid_access ↦ invalid_access
          | out_of_fuel ↦ out_of_fuel
        ])
          ≡ x
    go (done (a, s')) p = k a s' p
    go invalid_access p = absurd p
    go out_of_fuel p = absurd p

pub bind-starved :
    {S A B : Type 0} (m : Exec S A) (f : A → Exec S B) (s : S)
    → m s ≡ out_of_fuel
    → (m >>= f) s ≡ out_of_fuel
bind-starved m f s h = rw (◌>>=◌, h) refl
