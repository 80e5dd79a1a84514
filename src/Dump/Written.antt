-- ===== src/Dump/Written.antt =====
-- driver/dump.c: which files the dumps write, and that they close what they open.
use psvemmc.Base.{
  ℕ, suc, ◌<◌, ◌≡◌, ◌≢◌, ◌⊎◌, inl, inr, refl, true, false, some, List, [], ◌∷◌, ◌++◌, arith,
  if◌then◌else◌, ◌==◌, ==→eq, ==→ne, is_neg, word, take, get_elem?, pure, ◌>>◌, Returns,
  Returns-bind, Bool-cases,
}
use psvemmc.Log.Reached.{Reached}
use psvemmc.Dump.Texts
use psvemmc.Log.Lines.{int, str, global_line-Reached}
use psvemmc.Mtable.Construct.{ModuleInfo}
use psvemmc.Dump.{Kernel, Dumps, report, stored, save, dump_range, dump_segment, dump_module}

-- The log is in a state with n users, and no more files are open than before.
abbrev pub Closed : Kernel → ℕ → Dumps → Dumps → Type 0
Closed k n s s' = Reached k.io n s'.log × (s'.open_files ≡ s.open_files)

-- What a file took of a range of addresses.
abbrev pub content : Kernel → ℕ → ℕ → ℕ → ℕ → List ℕ
content k t fd address size = if size == 0 then [] else stored k t fd (k.memory address size)

-- The address is 0 and no file is opened; or it is not, and a file is asked for, which is not opened or
-- takes bytes of the range.
abbrev pub Stores : Kernel → ℕ → ℕ → Dumps → Dumps → Type 0
Stores k address size s s' =
    ((address ≡ 0) × (s'.files ≡ s.files))
    ⊎ ((address ≢ 0)
        × ((path : List ℕ) × (t : ℕ) × (((is_neg (k.open_file t path) ≡ true)
                × (s'.files ≡ s.files))
              ⊎ ((is_neg (k.open_file t path) ≡ false)
                  × (s'.files
                      ≡ s.files
                        ++ ((path, content k (suc t) (k.open_file t path) address size) ∷ []))))))

-- What a module that could be found, or not, leaves of its data segment.
abbrev pub Dumped : Kernel → List ℕ → ℕ → ℕ → Dumps → Dumps → Type 0
Dumped k name address size s s' =
    let tai = k.get_module_info_for_kernel name in
    let info = k.get_module_info tai.1 in
    (((is_neg tai.0 ≡ true) ⊎ (is_neg info.0 ≡ true)) × (s'.files ≡ s.files))
    ⊎ ((is_neg tai.0 ≡ false) × (is_neg info.0 ≡ false) × Stores k address size s s')

module _ (k : Kernel) (n : ℕ) (few : suc n < word) where
  report-Closed :
      (line : List ℕ) (s : Dumps) → Reached k.io n s.log → Closed k n s (report k line s)
  report-Closed line s r = (global_line-Reached k.io line n s.log few r, refl)

  save_lem :
      (path : List ℕ) (address size : ℕ) (s : Dumps)
      → Reached k.io n s.log
      → address ≢ 0
      → Closed k n s (save k path address size s).1
        × Stores k address size s (save k path address size s).1
  unfolding save
  save_lem path address size s r set = elim (Bool-cases (is_neg (k.open_file s.clock path))) [
    | inl e ↦ rw e ((r, refl), inr (set, (path, s.clock, inl (e, refl))))
    | inr e ↦ rw e ((r, omega arith), inr (set, (path, s.clock, inr (e, refl))))
  ]

  dump_range_lem :
      (name : List ℕ) (index address size : ℕ) (s : Dumps)
      → Reached k.io n s.log
      → Closed k n s (dump_range k name index (address, size) s).1
        × Stores k address size s (dump_range k name index (address, size) s).1
  unfolding dump_range
  dump_range_lem name index address size s r =
      let s1 =
        report k (k.snprintf Texts.segment_range (int index ∷ int address ∷ int size ∷ [])) s in
      let copy = take 29 (k.snprintf name []) in
      let filename =
        take 99 (k.snprintf Texts.file_format (int address ∷ str copy ∷ int index ∷ [])) in
      let s2 = report k (k.snprintf Texts.file_line (str filename ∷ [])) s1 in
      elim (Bool-cases (address == 0)) [
        | inl e ↦ rw e (report-Closed Texts.segment_empty s r, inl (==→eq address 0 e, refl))
        | inr e ↦ rw e (
            save_lem filename address size s2 (report-Closed _ s1 (report-Closed _ s r).0).0
              (==→ne address 0 e))
      ]

  -- What dump_module leaves, for the range of the segment.
  abbrev Left : ℕ × ℕ → Dumps → Dumps → Type 0
  Left range s s' = Closed k n s s' × Stores k range.0 range.1 s s'

  dump_segment_lem :
      (minfo : ModuleInfo) (index address size : ℕ) (s : Dumps)
      → get_elem? minfo.segments index ≡ some (address, size)
      → Reached k.io n s.log
      → Returns (dump_segment k minfo index s) (λ out. Left (address, size) s out.1)
  unfolding dump_segment
  dump_segment_lem minfo index address size s e r =
      rw (dump_segment, e) (dump_range_lem minfo.module_name index address size s r)

  -- A module whose data segment is at a range of addresses: the call returns 0, whatever fails in it; it
  -- leaves no file open and the log with as many users as before, where another user still fits into the
  -- count. If a call for the information on the module fails, or the address is 0, no file is written;
  -- else one file is asked for, and unless ksceIoOpen refuses it, it is added to the files and took of
  -- the range what ksceIoWrite stored, and nothing if the range is empty.
  pub dump_module_lem :
      (name ready failed : List ℕ) (address size : ℕ) (s : Dumps)
      → get_elem? (k.get_module_info (k.get_module_info_for_kernel name).1).1.segments 1
        ≡ some (address, size)
      → Reached k.io n s.log
      → Returns
          (dump_module k name ready failed s)
          (λ out. (out.0 ≡ 0) × Closed k n s out.1 × Dumped k name address size s out.1)
  unfolding dump_module
  dump_module_lem name ready failed address size s e r =
      let tai = k.get_module_info_for_kernel name in
      let info = k.get_module_info tai.1 in
      elim (Bool-cases (is_neg tai.0)) [
        | inl a ↦ rw a (refl, (r, refl), inl (inl refl, refl))
        | inr a ↦ elim (Bool-cases (is_neg info.0)) [
          | inl b ↦ rw (a, b) (refl, report-Closed failed s r, inl (inr refl, refl))
          | inr b ↦
              let s1 = report k ready s in
              let c1 = report-Closed ready s r in
              let Q =
                λ (out : Unit {0} × Dumps). Closed k n s out.1 × Stores k address size s out.1 in
              rw (a, b)
                (Returns-bind (dump_segment k info.1 1 >> pure tt) _ s1 Q _
                  (Returns-bind (dump_segment k info.1 1) _ s1
                    (λ out. Left (address, size) s1 out.1) Q
                    (dump_segment_lem info.1 1 address size s1 e c1.0) (λ x s' (c, st). (c, st)))
                  (λ x s' q. (refl, q.0, inr (refl, refl, q.1))))
        ]
      ]
