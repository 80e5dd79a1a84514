-- ===== src/Client/Headers.antt =====
-- client/psvemmc/SceMbr.cpp: which tables of partitions pass the tests.
use psvemmc.Base.{
  ℕ, ◌≡◌, ◌≢◌, ◌↔◌, refl, ap, sym, ◌∙◌, Bool, true, false, List, [], ◌∷◌, arith, not, ◌||◌, ◌==◌,
  if◌then◌else◌, length, ==→eq, eq→==, Bool-cases, inl, inr, neg,
}
use psvemmc.Client.Commands.{strncmp_eq}
use psvemmc.Client.Mbr.{Mbr, sce_header, validate_sce_mbr}

abbrev has_zero : List ℕ → Bool
has_zero [] = false
has_zero (y ∷ ys) = y == 0 || has_zero ys

pub strncmp_eq-eq :
    (xs ys : List ℕ)
    → length xs ≡ length ys
    → has_zero ys ≡ false
    → strncmp_eq (length ys) xs ys ≡ true
    → xs ≡ ys
unfolding strncmp_eq
strncmp_eq-eq [] [] l h e = refl
strncmp_eq-eq (x ∷ xs) [] l h e = absurd (omega arith)
strncmp_eq-eq [] (y ∷ ys) l h e = absurd (omega arith)
strncmp_eq-eq (x ∷ xs) (y ∷ ys) l h e = elim (Bool-cases (x == y)) [
  | inl same ↦
      let first : x ≡ y = ==→eq x y same in
      let (here, later) = neither (y == 0) (has_zero ys) h in
      let none_ends : (x == 0) ≡ false = ap (λ n. n == 0) first ∙ here in
      let k : strncmp_eq (length ys) xs ys ≡ true =
        sym (more (x == y) (x == 0) (strncmp_eq (length ys) xs ys) same none_ends) ∙ e in
      rw first (ap (λ zs. y ∷ zs) (strncmp_eq-eq xs ys (omega arith) later k))
  | inr differ ↦
      absurd (mismatch (x == y) (if x == 0 then true else strncmp_eq (length ys) xs ys) differ e)
]
  where
    neither : (a b : Bool) → (a || b) ≡ false → (a ≡ false) × (b ≡ false)
    neither true b p = cc
    neither false b p = (refl, p)

    more :
        (a b c : Bool) → a ≡ true → b ≡ false → (if not a then false else if b then true else c) ≡ c
    more a b c p q = rw (p, q) refl

    mismatch : (a b : Bool) → a ≡ false → (if not a then false else b) ≢ true
    mismatch true b p e = cc
    mismatch false b p e = cc

pub strncmp_eq_refl : (ys : List ℕ) → strncmp_eq (length ys) ys ys ≡ true
unfolding strncmp_eq
strncmp_eq_refl [] = refl
strncmp_eq_refl (y ∷ ys) = rw (eq→== y y refl, strncmp_eq_refl ys) (either (y == 0))
  where
    either : (b : Bool) → (if b then true else true) ≡ true
    either true = refl
    either false = refl

-- The three tests, of which the first is that of the header.
three_tests :
    (b : Bool) (v s : ℕ)
    → ((if not b
          then neg 1
          else if not (v == 3)
          then neg 1
          else if not (s == 43605)
          then neg 1
          else 0)
        ≡ 0)
      ↔ ((b ≡ true) × (v ≡ 3) × (s ≡ 43605))
three_tests false v s = (λ h. absurd (omega arith), λ (e, _, _). cc)
three_tests true v s = (λ h. ground arith, λ (_, e, f). ground arith)

-- A table of partitions passes the tests exactly if it starts with the text of Sony, its version is 3
-- and it ends with the signature 0xAA55.
validate_sce_mbr-IsValid :
    (mbr : Mbr)
    → length mbr.header ≡ 32
    → (validate_sce_mbr mbr ≡ 0)
      ↔ ((mbr.header ≡ sce_header) × (mbr.version ≡ 3) × (mbr.signature ≡ 43605))
unfolding validate_sce_mbr
validate_sce_mbr-IsValid mbr l =
    let tests = three_tests (strncmp_eq 32 mbr.header sce_header) mbr.version mbr.signature in
    (
      λ h. let (a, b, c) = tests.0 h in (strncmp_eq-eq mbr.header sce_header l refl a, b, c),
      λ (a, b, c).
          tests.1 (ap (λ x. strncmp_eq 32 x sce_header) a ∙ strncmp_eq_refl sce_header, b, c),
    )
