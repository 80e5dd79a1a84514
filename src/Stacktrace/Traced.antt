-- ===== src/Stacktrace/Traced.antt =====
-- driver/stacktrace.c: which words of the stack a trace shows.
use psvemmc.Base.{
  ℕ, zero, suc, ◌-◌, ◌<◌, ◌≡◌, ◌⊎◌, inl, inr, refl, ap, sym, ◌∙◌, subst, true, false, some, List,
  [], ◌∷◌, ◌++◌, arith, if◌then◌else◌, ◌==◌, is_neg, neg, length, length-append, get_elem?,
  Bool-cases, Exec, pure, ◌>>◌, Returns, Returns-mono, Returns-bind,
}
use psvemmc.Mtable.{
  SegmentInfo, in_range, Absent, FoundFirst, find_in_segments, find_in_segments_lem,
}
use psvemmc.Mtable.Constructed.{get_elem?-append}
use psvemmc.Stacktrace.{
  System, Tracer, Search, shows, word_line, trace_entry, trace_word, trace_from, trace_size,
  get_current_thread_info, stacktrace_from_here, stacktrace_from_here_global,
  stacktrace_from_here_sd, write_global, write_sd,
}
use psvemmc.Stacktrace.Texts

-- The first segment of a table that has the address.
abbrev pub Within : List SegmentInfo → ℕ → SegmentInfo → Type 0
Within xs item x =
    (before : List SegmentInfo) × (after : List SegmentInfo) × (xs ≡ before ++ (x ∷ after))
    × Absent item before
    × (in_range item x ≡ true)

-- The words that a trace shows of `n` words from the i-th on, each with its segment: those that lie
-- in a segment of the table that was asked for, in the order of the stack.
pub data Traced (sys : System) (q : Search) (xs : List SegmentInfo)
    : ℕ → ℕ → List (ℕ × SegmentInfo) → Type 0 where
  ended : {i : ℕ} → Traced sys q xs 0 i []
  outside :
      {n i : ℕ} {es : List (ℕ × SegmentInfo)}
      → Absent (sys.stack_word i) xs
      → Traced sys q xs n (suc i) es
      → Traced sys q xs (suc n) i es
  hidden :
      {n i : ℕ} {es : List (ℕ × SegmentInfo)} (x : SegmentInfo)
      → Within xs (sys.stack_word i) x
      → shows q x ≡ false
      → Traced sys q xs n (suc i) es
      → Traced sys q xs (suc n) i es
  shown :
      {n i : ℕ} {es : List (ℕ × SegmentInfo)} (x : SegmentInfo)
      → Within xs (sys.stack_word i) x
      → shows q x ≡ true
      → Traced sys q xs n (suc i) es
      → Traced sys q xs (suc n) i ((i, x) ∷ es)

module _ (write : List ℕ → Tracer → Tracer) (sys : System) (format : List ℕ) (q : Search) where
  -- The lines for the words, written one after another.
  abbrev pub write_words : List (ℕ × SegmentInfo) → Tracer → Tracer
  write_words [] s = s
  write_words ((i, x) ∷ es) s = write_words es (write (word_line sys format i x) s)

  -- What the round for the i-th word does.
  abbrev Word : ℕ → Tracer → Tracer → Type 0
  Word i s s' =
      ((s' ≡ s)
        × (Absent (sys.stack_word i) s.seg_list
            ⊎ ((x : SegmentInfo) × Within s.seg_list (sys.stack_word i) x × (shows q x ≡ false))))
      ⊎ ((x : SegmentInfo) × (s' ≡ write (word_line sys format i x) s)
          × Within s.seg_list (sys.stack_word i) x
          × (shows q x ≡ true))

  found-Word :
      (i r : ℕ) (s : Tracer)
      → length s.seg_list < 2147483648
      → FoundFirst s.seg_list (sys.stack_word i) 0 r
      → Returns
          ((if is_neg r
            then pure tt s
            else trace_entry write sys format q i (get_elem? s.seg_list r) s))
          (λ out. Word i s out.1)
  found-Word i r s few (before, x, after, e, absent, within, place) =
      let w : Within s.seg_list (sys.stack_word i) x = (before, after, e, absent, within) in
      let size = ap (λ l. length l) e ∙ length-append before (x ∷ after) in
      let place0 : r ≡ length before = omega (arith, place) in
      let pos : is_neg r ≡ false = ground (arith, few, place, size) in
      let at : get_elem? s.seg_list r ≡ some x =
        subst (λ m. get_elem? s.seg_list m ≡ some x) (sym place0)
          (subst (λ l. get_elem? l (length before) ≡ some x) (sym e)
            (get_elem?-append before x after)) in
      elim (Bool-cases (shows q x)) [
        | inl v ↦ rw (pos, at, trace_entry, v) (inr (x, refl, w, v))
        | inr v ↦ rw (pos, at, trace_entry, v) (inl (refl, inr (x, w, v)))
      ]

  trace_word-Word :
      (i : ℕ) (s : Tracer)
      → s.is_constructed ≡ 1
      → length s.seg_list < 2147483648
      → Returns (trace_word write sys format q i s) (λ out. Word i s out.1)
  trace_word-Word i s c few =
      let item = sys.stack_word i in
      let find : ℕ → ℕ = λ c. find_in_segments s.seg_list c item in
      let Found : ℕ → Type 0 =
        λ c. ((find c ≡ neg 1) × Absent item s.seg_list) ⊎ FoundFirst s.seg_list item 0 (find c) in
      go (find s.is_constructed) (subst Found (sym c) (find_in_segments_lem s.seg_list item))
    where
      go :
          (r : ℕ)
          → ((r ≡ neg 1) × Absent (sys.stack_word i) s.seg_list)
            ⊎ FoundFirst s.seg_list (sys.stack_word i) 0 r
          → Returns
              ((if is_neg r
                then pure tt s
                else trace_entry write sys format q i (get_elem? s.seg_list r) s))
              (λ out. Word i s out.1)
      go r (inl (e, absent)) = rw e (inl (refl, inl absent))
      go r (inr found) = found-Word i r s few found

  -- The table is as it was after each line.
  abbrev pub Keeps : Type 0
  Keeps =
      (line : List ℕ) (s : Tracer)
      → ((write line s).seg_list ≡ s.seg_list) × ((write line s).is_constructed ≡ s.is_constructed)

  -- The words that are shown, and the lines for them.
  abbrev pub Shows : ℕ → ℕ → Tracer → Tracer → Type 0
  Shows n i s s' =
      (es : List (ℕ × SegmentInfo)) × Traced sys q s.seg_list n i es × (s' ≡ write_words es s)

  more :
      (n i : ℕ) (s s1 s2 : Tracer)
      → Keeps
      → Word i s s1
      → Shows n (suc i) s1 s2
      → Shows (suc n) i s s2
  more n i s s1 s2 k (inl (e, inl absent)) (es, t, w) =
      let t' = subst (λ x. Traced sys q x.seg_list n (suc i) es) e t in
      (es, Traced.outside absent t', w ∙ ap (write_words es) e)
  more n i s s1 s2 k (inl (e, inr (x, within, v))) (es, t, w) =
      let t' = subst (λ x. Traced sys q x.seg_list n (suc i) es) e t in
      (es, Traced.hidden x within v t', w ∙ ap (write_words es) e)
  more n i s s1 s2 k (inr (x, e, within, v)) (es, t, w) =
      let same = ap (λ (y : Tracer). y.seg_list) e ∙ (k (word_line sys format i x) s).0 in
      let t' = subst (λ l. Traced sys q l n (suc i) es) same t in
      ((i, x) ∷ es, Traced.shown x within v t', w ∙ ap (write_words es) e)

  kept :
      (i : ℕ) (s s1 : Tracer)
      → Keeps
      → Word i s s1
      → (s1.seg_list ≡ s.seg_list) × (s1.is_constructed ≡ s.is_constructed)
  kept i s s1 k (inl (e, r)) =
      (ap (λ (y : Tracer). y.seg_list) e, ap (λ (y : Tracer). y.is_constructed) e)
  kept i s s1 k (inr (x, e, w, v)) =
      let h = k (word_line sys format i x) s in
      (ap (λ (y : Tracer). y.seg_list) e ∙ h.0, ap (λ (y : Tracer). y.is_constructed) e ∙ h.1)

  trace_from-Shows :
      (k : Keeps) (n i : ℕ) (s : Tracer)
      → s.is_constructed ≡ 1
      → length s.seg_list < 2147483648
      → Returns (trace_from write sys format q n i s) (λ out. Shows n i s out.1)
  unfolding trace_from
  trace_from-Shows k zero i s c few = ([], Traced.ended, refl)
  trace_from-Shows k (suc n) i s c few =
      Returns-bind (trace_word write sys format q i) (λ x. trace_from write sys format q n (suc i))
        s (λ out. Word i s out.1) (λ out. Shows (suc n) i s out.1) (trace_word-Word i s c few)
        (λ x s1 w.
          let same = kept i s s1 k w in
          let bound : length s1.seg_list < 2147483648 = rw same.0 few in
          Returns-mono (trace_from write sys format q n (suc i) s1)
            (λ out. Shows n (suc i) s1 out.1) (λ out. Shows (suc n) i s out.1)
            (λ out h. more n i s s1 out.1 k w h)
            (trace_from-Shows k n (suc i) s1 (same.1 ∙ c) bound))

-- What a trace leaves: the mutex as it was, and the lines for the words, one after another.
abbrev pub Leaves :
    (List ℕ → Tracer → Tracer) → System → List ℕ → Search → ℕ → Tracer → ℕ × Tracer → Type 0
Leaves write sys format q stack_size s out =
    (es : List (ℕ × SegmentInfo)) × (out ≡ (0, write_words write sys format q es s))
    × Traced sys q s.seg_list (trace_size sys stack_size) 0 es

get_current_thread_info-same : (sys : System) (s : Tracer) → (get_current_thread_info sys s).1 ≡ s
unfolding get_current_thread_info
get_current_thread_info-same sys s =
    let m_info = sys.get_module_info_for_kernel Texts.manager in
    let back : record s { held = suc s.held - 1 } ≡ s =
      ap (λ (h : ℕ). record s { held = h }) (omega arith) in
    elim (Bool-cases (is_neg m_info.0)) [
      | inl e ↦ rw e back
      | inr e ↦ elim (Bool-cases ((sys.module_get_offset m_info.1).0 == 0)) [
        | inl e' ↦ rw (e, e') back
        | inr e' ↦ rw (e, e') back
      ]
    ]

stacktrace_from_here-Leaves :
    (write : List ℕ → Tracer → Tracer) (sys : System) (format : List ℕ) (q : Search)
    (k : Keeps write sys format q) (stack_size : ℕ) (s : Tracer)
    → s.is_constructed ≡ 1
    → length s.seg_list < 2147483648
    → Returns
        (stacktrace_from_here write sys format q stack_size s)
        (Leaves write sys format q stack_size s)
unfolding stacktrace_from_here
stacktrace_from_here-Leaves write sys format q k stack_size s c few =
    let n = trace_size sys stack_size in
    let body : Exec Tracer ℕ = trace_from write sys format q n 0 >> pure 0 in
    subst (λ x. Returns (body x) (Leaves write sys format q stack_size s))
      (sym (get_current_thread_info-same sys s))
      (Returns-bind (trace_from write sys format q n 0) (λ x. pure 0) s
        (λ out. Shows write sys format q n 0 s out.1) _
        (trace_from-Shows write sys format q k n 0 s c few)
        (λ x s1 (es, t, e). (es, ap (λ y. (0, y)) e, t)))

-- A table of segments that was constructed, of at most 2^31 - 1 entries: each of the two traces returns
-- 0 and follows no index outside of the table, with the mutex as it was. It writes to its log, in the
-- order of the stack, one line for each word of the part of the stack that lies in a segment of the table,
-- if it is verbose or the segment is that of the module and the index that were asked for; the line
-- shows the first segment that has the word.
pub stacktrace_from_here_lem :
    (sys : System) (q : Search) (stack_size : ℕ) (s : Tracer)
    → s.is_constructed ≡ 1
    → length s.seg_list < 2147483648
    → Returns
        (stacktrace_from_here_global sys q stack_size s)
        (Leaves (write_global sys) sys Texts.global_word q stack_size s)
      × Returns
          (stacktrace_from_here_sd sys q stack_size s)
          (Leaves (write_sd sys) sys Texts.sd_word q stack_size s)
unfolding stacktrace_from_here_global stacktrace_from_here_sd
stacktrace_from_here_lem sys q stack_size s c few = (
  stacktrace_from_here-Leaves (write_global sys) sys Texts.global_word q (λ line s. (refl, refl))
      stack_size s c few,
  stacktrace_from_here-Leaves (write_sd sys) sys Texts.sd_word q (λ line s. (refl, refl)) stack_size
      s c few,
)
