-- ===== src/Mtable.antt =====
-- driver/mtable.c: the lookup of an address in the table of the segments of the loaded modules
-- (find_in_segments), and the comparison that sorts the table (compare_segments).
pub mod Construct
pub mod Constructed
pub mod Loaded
pub mod Stale
pub mod Sorted
use psvemmc.Base.{
  ℕ, suc, ◌+◌, ◌<◌, ◌≡◌, ◌⊎◌, ◌↔◌, inl, inr, refl, ap, sym, subst, Bool, true, false, List, [], ◌∷◌,
  ◌++◌, arith, if◌then◌else◌, ◌&&◌, ltb, leb, ◌==◌, neg, length, Bool-cases,
}

pub record SegmentInfo : Type 0 where
  pub module_name : List ℕ
  pub seg : ℕ
  pub start : ℕ
  pub end : ℕ

-- item >= segList[s].range.start && item < segList[s].range.end
abbrev pub in_range : ℕ → SegmentInfo → Bool
in_range item x = leb x.start item && ltb item x.end

-- The loop, from the index `s` on.
unfoldable pub find_from : ℕ → List SegmentInfo → ℕ → ℕ
find_from s [] item = neg 1
find_from s (x ∷ xs) item =
    let rest = find_from (suc s) xs item in if in_range item x then s else rest

-- The list has segListSize entries.
unfoldable pub find_in_segments : List SegmentInfo → ℕ → ℕ → ℕ
unfolding find_from
find_in_segments seg_list module_constructed item =
    if module_constructed == 0 then neg 1 else find_from 0 seg_list item

unfoldable pub compare_segments : SegmentInfo → SegmentInfo → ℕ
compare_segments x y = if ltb x.start y.start then neg 1 else if ltb y.start x.start then 1 else 0

-- No segment of the list has the item.
abbrev pub Absent : ℕ → List SegmentInfo → Type 0
Absent item [] = Unit
Absent item (x ∷ xs) = (in_range item x ≡ false) × Absent item xs

-- The result is the index of the first segment that has the item.
abbrev pub FoundFirst : List SegmentInfo → ℕ → ℕ → ℕ → Type 0
FoundFirst xs item s r =
    (before : List SegmentInfo) × (x : SegmentInfo) × (after : List SegmentInfo) × (xs
      ≡ before ++ (x ∷ after))
    × Absent item before
    × (in_range item x ≡ true)
    × (r ≡ s + length before)

find_from_lem :
    (s : ℕ) (xs : List SegmentInfo) (item : ℕ)
    → ((find_from s xs item ≡ neg 1) × Absent item xs) ⊎ FoundFirst xs item s (find_from s xs item)
unfolding find_from
find_from_lem s [] item = inl (refl, tt)
find_from_lem s (x ∷ xs) item =
    let rest = find_from (suc s) xs item in
    let P : ℕ → Type 0 = λ r. ((r ≡ neg 1) × Absent item (x ∷ xs)) ⊎ FoundFirst (x ∷ xs) item s r in
    elim (Bool-cases (in_range item x)) [
      | inl e ↦
          subst P (sym (ap (λ b. if b then s else rest) e))
            (inr ([], x, xs, refl, tt, e, omega arith))
      | inr e ↦
          subst P (sym (ap (λ b. if b then s else rest) e))
            (further e (find_from_lem (suc s) xs item))
    ]
  where
    further :
        in_range item x ≡ false
        → ((find_from (suc s) xs item ≡ neg 1) × Absent item xs)
          ⊎ FoundFirst xs item (suc s) (find_from (suc s) xs item)
        → ((find_from (suc s) xs item ≡ neg 1) × Absent item (x ∷ xs))
          ⊎ FoundFirst (x ∷ xs) item s (find_from (suc s) xs item)
    further e (inl (r, h)) = inl (r, (e, h))
    further e (inr (before, y, after, split, h, k, r)) =
        inr (x ∷ before, y, after, ap (λ l. x ∷ l) split, (e, h), k, omega arith)

-- The lookup in a table that was constructed gives the index of the first segment whose range has the
-- address, or -1, and then no segment has it.
pub find_in_segments_lem :
    (seg_list : List SegmentInfo) (item : ℕ)
    → ((find_in_segments seg_list 1 item ≡ neg 1) × Absent item seg_list)
      ⊎ FoundFirst seg_list item 0 (find_in_segments seg_list 1 item)
unfolding find_in_segments
find_in_segments_lem seg_list item = find_from_lem 0 seg_list item

-- The comparison that the sort gets is that of the starts, and it is consistent: it gives -1 one way
-- exactly if it gives 1 the other way, and 0 exactly if the starts are equal.
compare_segments_lem :
    (x y : SegmentInfo)
    → ((compare_segments x y ≡ neg 1) ↔ (compare_segments y x ≡ 1))
      × ((compare_segments x y ≡ 0) ↔ (x.start ≡ y.start))
      × ((compare_segments x y ≡ neg 1) ↔ (x.start < y.start))
unfolding compare_segments
compare_segments_lem x y = ground arith
