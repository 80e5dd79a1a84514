-- ===== src/Mtable/Constructed.antt =====
-- driver/mtable.c, construct_module_range_table: what the table holds, and how many segments it takes.
use psvemmc.Base.{
  ℕ, zero, suc, ◌+◌, ◌-◌, ◌≤◌, ◌<◌, ◌≡◌, ◌⊎◌, inl, inr, refl, ap, sym, subst, ◌∙◌, Bool, true,
  false, Option, some, List, [], ◌∷◌, ◌++◌, append-nil, append_assoc, arith, if◌then◌else◌, ◌==◌,
  ltb, length, replicate, overwrite_at, get_elem?, length-append, Exec, Outcome, done,
  invalid_access, out_of_fuel, is_neg, pure, ◌>>◌,
}
use psvemmc.Mtable.{SegmentInfo}
use psvemmc.Mtable.Construct.{
  ModuleInfo, Modules, Table, unset, put, put_module, entry, put_segments, put_modules,
}

-- The table with some entries set and `k` behind them that are not.
abbrev pub holding : Table → List SegmentInfo → ℕ → Table
holding t ds k = record t { seg_list = ds ++ replicate k unset }

overwrite_at-append :
    {A : Type 0} (ds : List A) (x y : A) (zs : List A)
    → overwrite_at (length ds) (ds ++ (y ∷ zs)) (x ∷ []) ≡ (ds ++ (x ∷ [])) ++ zs
overwrite_at-append [] x y [] = refl
overwrite_at-append [] x y (z ∷ zs) = refl
overwrite_at-append (d ∷ ds) x y zs = ap (λ l. d ∷ l) (overwrite_at-append ds x y zs)

pub put-entry :
    (t : Table) (ds : List SegmentInfo) (x y : SegmentInfo) (zs : List SegmentInfo)
    → put (length ds) x (record t { seg_list = ds ++ (y ∷ zs) })
      ≡ done (tt, record t { seg_list = (ds ++ (x ∷ [])) ++ zs })
put-entry t ds x y zs =
    let fits : ltb (length ds) (length (ds ++ (y ∷ zs))) ≡ true =
      ground (arith, length-append ds (y ∷ zs)) in
    rw (fits, overwrite_at-append ds x y zs) refl

put-holding :
    (t : Table) (ds : List SegmentInfo) (k : ℕ) (x : SegmentInfo)
    → put (length ds) x (holding t ds (suc k)) ≡ done (tt, holding t (ds ++ (x ∷ [])) k)
put-holding t ds k x = put-entry t ds x unset (replicate k unset)

put-full :
    (t : Table) (ds : List SegmentInfo) (x : SegmentInfo)
    → put (length ds) x (record t { seg_list = ds ++ [] }) ≡ invalid_access
put-full t ds x =
    let full : ltb (length ds) (length (ds ++ [])) ≡ false = ground (arith, length-append ds []) in
    rw full refl

-- The entries of a module, from the s-th segment on: those of the segments that are there.
abbrev pub entries_from : ModuleInfo → List (ℕ × ℕ) → ℕ → List SegmentInfo
entries_from minfo [] s = []
entries_from minfo (x ∷ xs) s =
    let rest = entries_from minfo xs (suc s) in if x.0 == 0 then rest else entry minfo s x ∷ rest

-- Entries that find room are put behind the others; entries that do not leave the table.
abbrev Puts : Table → List SegmentInfo → ℕ → List SegmentInfo → Outcome (ℕ × Table) → Type 0
Puts t ds k es o =
    ((length es ≤ k) × (o ≡ done (length ds + length es, holding t (ds ++ es) (k - length es))))
    ⊎ ((k < length es) × (o ≡ invalid_access))

-- An entry was put, and then the others.
Puts-more :
    (t : Table) (ds : List SegmentInfo) (k : ℕ) (x : SegmentInfo) (es : List SegmentInfo)
    (o : Outcome (ℕ × Table))
    → Puts t (ds ++ (x ∷ [])) k es o
    → Puts t ds (suc k) (x ∷ es) o
Puts-more t ds k x es o (inr (h, e)) = inr (omega arith, e)
Puts-more t ds k x es o (inl (h, e)) =
    let n : length (ds ++ (x ∷ [])) + length es ≡ length ds + suc (length es) =
      omega (arith, length-append ds (x ∷ [])) in
    let r : k - length es ≡ suc k - suc (length es) = omega arith in
    inl (
      omega arith,
      e
          ∙ ap (λ m. done (m, holding t ((ds ++ (x ∷ [])) ++ es) (k - length es))) n
          ∙ ap (λ l. done (length ds + suc (length es), holding t l (k - length es)))
              (append_assoc ds (x ∷ []) es)
          ∙ ap (λ j. done (length ds + suc (length es), holding t (ds ++ (x ∷ es)) j)) r,
    )

Puts-none :
    (t : Table) (ds : List SegmentInfo) (k : ℕ) → Puts t ds k [] (done (length ds, holding t ds k))
Puts-none t ds k =
    let n : length ds ≡ length ds + 0 = omega arith in
    let r : k ≡ k - 0 = omega arith in
    inl (
      omega arith,
      ap (λ m. done (m, holding t ds k)) n
          ∙ ap (λ l. done (length ds + 0, holding t l k)) (sym (append-nil ds))
          ∙ ap (λ j. done (length ds + 0, holding t (ds ++ []) j)) r,
    )

put_segments-Puts :
    (minfo : ModuleInfo) (xs : List (ℕ × ℕ)) (s : ℕ) (t : Table) (ds : List SegmentInfo) (k : ℕ)
    → Puts t ds k (entries_from minfo xs s) (put_segments minfo xs s (length ds) (holding t ds k))
unfolding put_segments
put_segments-Puts minfo [] s t ds k = Puts-none t ds k
put_segments-Puts minfo (x ∷ xs) s t ds k =
    tested (x.0 == 0) (put_segments-Puts minfo xs (suc s) t ds k)
      (go k (λ l j. put_segments-Puts minfo xs (suc s) t l j))
  where
    es : List SegmentInfo
    es = entries_from minfo xs (suc s)

    putting : Exec Table ℕ
    putting = put (length ds) (entry minfo s x) >> put_segments minfo xs (suc s) (suc (length ds))

    bound : Outcome (Unit {0} × Table) → Outcome (ℕ × Table)
    bound (done (u, t')) = put_segments minfo xs (suc s) (suc (length ds)) t'
    bound invalid_access = invalid_access
    bound out_of_fuel = out_of_fuel

    go :
        (k : ℕ)
        → ((l : List SegmentInfo) (j : ℕ)
            → Puts t l j es (put_segments minfo xs (suc s) (length l) (holding t l j)))
        → Puts t ds k (entry minfo s x ∷ es) (putting (holding t ds k))
    go zero rest = inr (omega arith, ap bound (put-full t ds (entry minfo s x)))
    go (suc k) rest =
        let e = entry minfo s x in
        let next : length (ds ++ (e ∷ [])) ≡ suc (length ds) =
          omega (arith, length-append ds (e ∷ [])) in
        subst (Puts t ds (suc k) (e ∷ es)) (sym (ap bound (put-holding t ds k e))) (
          Puts-more t ds k e es _ (
            subst
              (λ n.
                Puts t (ds ++ (e ∷ [])) k es
                  (put_segments minfo xs (suc s) n (holding t (ds ++ (e ∷ [])) k)))
              next (rest (ds ++ (e ∷ [])) k)))

    tested :
        (b : Bool)
        → Puts t ds k es (put_segments minfo xs (suc s) (length ds) (holding t ds k))
        → Puts t ds k (entry minfo s x ∷ es) (putting (holding t ds k))
        → Puts t ds k
            (if b then es else entry minfo s x ∷ es)
            ((if b then put_segments minfo xs (suc s) (length ds) else putting) (holding t ds k))
    tested true p q = p
    tested false p q = q

-- The entries of modules, by their identifiers.
abbrev pub entries : (ℕ → ModuleInfo) → List ℕ → List SegmentInfo
entries info [] = []
entries info (id ∷ ids) = entries_from (info id) (info id).segments 0 ++ entries info ids

-- What the loop over the modules gives.
abbrev pub PutsAll :
    Table → List SegmentInfo → ℕ → List SegmentInfo → Outcome ((ℕ × ℕ) × Table) → Type 0
PutsAll t ds k es o =
    ((length es ≤ k)
      × (o ≡ done ((0, length ds + length es), holding t (ds ++ es) (k - length es))))
    ⊎ ((k < length es) × (o ≡ invalid_access))

pub get_elem?-append :
    {A : Type 0} (xs : List A) (y : A) (ys : List A)
    → get_elem? (xs ++ (y ∷ ys)) (length xs) ≡ some y
get_elem?-append [] y ys = refl
get_elem?-append (x ∷ xs) y ys = get_elem?-append xs y ys

PutsAll-more :
    (t : Table) (ds : List SegmentInfo) (k : ℕ) (xs es : List SegmentInfo)
    (o : Outcome ((ℕ × ℕ) × Table))
    → length xs ≤ k
    → PutsAll t (ds ++ xs) (k - length xs) es o
    → PutsAll t ds k (xs ++ es) o
PutsAll-more t ds k xs es o h (inr (over, e)) = inr (omega (arith, length-append xs es), e)
PutsAll-more t ds k xs es o h (inl (fits, e)) =
    let n : length (ds ++ xs) + length es ≡ length ds + length (xs ++ es) =
      omega (arith, length-append ds xs, length-append xs es) in
    let r : k - length xs - length es ≡ k - length (xs ++ es) =
      omega (arith, length-append xs es) in
    inl (
      omega (arith, length-append xs es),
      e
          ∙ ap (λ m. done ((0, m), holding t ((ds ++ xs) ++ es) (k - length xs - length es))) n
          ∙ ap
              (λ l.
                done ((0, length ds + length (xs ++ es)), holding t l (k - length xs - length es)))
              (append_assoc ds xs es)
          ∙ ap (λ j. done ((0, length ds + length (xs ++ es)), holding t (ds ++ (xs ++ es)) j)) r,
    )

module _ (modules : Modules) (info : ℕ → ModuleInfo)
    (known : (id : ℕ) → modules.get_module_info id ≡ (0, info id)) where
  pub put_modules-PutsAll :
      (before ids after : List ℕ) (t : Table) (ds : List SegmentInfo) (k : ℕ)
      → t.modlist ≡ before ++ (ids ++ after)
      → PutsAll t ds k
          (entries info ids)
          (put_modules modules (length ids) (length before) (length ds) (holding t ds k))
  unfolding put_modules
  put_modules-PutsAll before [] after t ds k there =
      let n : length ds ≡ length ds + 0 = omega arith in
      let r : k ≡ k - 0 = omega arith in
      inl (
        omega arith,
        ap (λ m. done ((0, m), holding t ds k)) n
            ∙ ap (λ l. done ((0, length ds + 0), holding t l k)) (sym (append-nil ds))
            ∙ ap (λ j. done ((0, length ds + 0), holding t (ds ++ []) j)) r,
      )
  put_modules-PutsAll before (id ∷ ids) after t ds k there =
      subst (λ o. PutsAll t ds k (es ++ entries info ids) (next (first o))) (sym round)
        (go (put_segments-Puts (info id) (info id).segments 0 t ds k) (λ l j.
          put_modules-PutsAll (before ++ (id ∷ [])) ids after t l j
            (there ∙ sym (append_assoc before (id ∷ []) (ids ++ after)))))
    where
      es : List SegmentInfo
      es = entries_from (info id) (info id).segments 0

      next : Outcome ((ℕ × ℕ) × Table) → Outcome ((ℕ × ℕ) × Table)
      next (done (out, t')) =
          (if is_neg out.0
              then pure out
              else put_modules modules (length ids) (suc (length before)) out.1)
            t'
      next invalid_access = invalid_access
      next out_of_fuel = out_of_fuel

      first : Option ℕ → Outcome ((ℕ × ℕ) × Table)
      first found = put_module modules found (length ds) (holding t ds k)

      round : get_elem? t.modlist (length before) ≡ some id
      round =
          ap (λ l. get_elem? l (length before)) there ∙ get_elem?-append before id (ids ++ after)

      after_segments : Outcome (ℕ × Table) → Outcome ((ℕ × ℕ) × Table)
      after_segments (done (index, t')) = done ((0, index), t')
      after_segments invalid_access = invalid_access
      after_segments out_of_fuel = out_of_fuel

      puts : Outcome (ℕ × Table)
      puts = put_segments (info id) (info id).segments 0 (length ds) (holding t ds k)

      ran : first (some id) ≡ after_segments puts
      ran = rw (known id) refl

      go :
          Puts t ds k es puts
          → ((l : List SegmentInfo) (j : ℕ)
              → PutsAll t l j (entries info ids) (
                  put_modules modules
                    (length ids)
                    (length (before ++ (id ∷ [])))
                    (length l)
                    (holding t l j)))
          → PutsAll t ds k (es ++ entries info ids) (next (first (some id)))
      go (inr (over, e)) rest =
          inr (
            omega (arith, length-append es (entries info ids)),
            ap next (ran ∙ ap after_segments e),
          )
      go (inl (fits, e)) rest =
          let m : length (before ++ (id ∷ [])) ≡ suc (length before) =
            omega (arith, length-append before (id ∷ [])) in
          subst (PutsAll t ds k (es ++ entries info ids))
            (ap
                (λ n.
                  put_modules modules (length ids) n (length (ds ++ es))
                    (holding t (ds ++ es) (k - length es)))
                m
              ∙ ap
                  (λ n.
                    put_modules modules (length ids) (suc (length before)) n
                      (holding t (ds ++ es) (k - length es)))
                  (length-append ds es)
              ∙ sym (ap next (ran ∙ ap after_segments e)))
            (PutsAll-more t ds k es (entries info ids) _ fits (rest (ds ++ es) (k - length es)))
