-- ===== src/Mtable/Construct.antt =====
-- driver/mtable.c, construct_module_range_table: the table is filled with the segments of the loaded
-- modules.
use psvemmc.Base.{
  ℕ, zero, suc, Option, none, some, List, [], ◌∷◌, if◌then◌else◌, not, ◌==◌, ltb, is_neg, not_pos,
  neg, add32, length, take, replicate, overwrite, overwrite_at, get_elem?, Exec, done,
  invalid_access, pure, fault, gets, modify, ◌>>=◌, ◌>>◌,
}
use psvemmc.Mtable.{SegmentInfo}

-- Of SceKernelModuleInfo the name and the four segments, with vaddr and memsz.
pub record ModuleInfo : Type 0 where
  pub module_name : List ℕ
  pub segments : List (ℕ × ℕ)

-- ksceKernelGetModuleList: the result, the count that it stores, and the identifiers that it writes; and
-- ksceKernelGetModuleInfo for an identifier.
pub record Modules : Type 0 where
  pub get_module_list : ℕ × ℕ × List ℕ
  pub get_module_info : ℕ → ℕ × ModuleInfo

-- modlist, segList and *moduleConstructured; the lengths of the lists are modlistLen and segListLen.
pub record Table : Type 0 where
  pub modlist : List ℕ
  pub seg_list : List SegmentInfo
  pub module_constructed : ℕ

-- An entry after memset(segList, -1, ...).
abbrev pub unset : SegmentInfo
unset = record { module_name = replicate 30 255; seg = neg 1; start = neg 1; end = neg 1 }

-- segList[i] = x
abbrev pub put : ℕ → SegmentInfo → Exec Table (Unit {0})
put i x t =
    if ltb i (length t.seg_list)
    then done (tt, record t { seg_list = overwrite_at i t.seg_list (x ∷ []) })
    else invalid_access

-- The entry for the s-th segment of a module.
abbrev pub entry : ModuleInfo → ℕ → ℕ × ℕ → SegmentInfo
entry minfo s segment = record {
  module_name = overwrite (replicate 30 0) (take 28 minfo.module_name);
  seg = s;
  start = segment.0;
  end = add32 segment.0 segment.1;
}

-- The loop over the segments of a module, from the s-th on: the next segInfoIndex.
unfoldable pub put_segments : ModuleInfo → List (ℕ × ℕ) → ℕ → ℕ → Exec Table ℕ
put_segments minfo [] s seg_info_index = pure seg_info_index
put_segments minfo (x ∷ xs) s seg_info_index =
    let next : ℕ → Exec Table ℕ = put_segments minfo xs (suc s) in
    if x.0 == 0
    then next seg_info_index
    else do put seg_info_index (entry minfo s x); next (suc seg_info_index)

-- The final item.
abbrev pub set_end : Option SegmentInfo → ℕ → Exec Table ℕ
set_end none seg_info_index = fault
set_end (some old) seg_info_index = do
  put seg_info_index (record old { start = neg 1; end = neg 1 })
  pure 0

abbrev pub put_end : ℕ → Exec Table ℕ
put_end seg_info_index t = set_end (get_elem? t.seg_list seg_info_index) seg_info_index t

-- memset of both lists, with *moduleConstructured = 1
abbrev pub cleared : Table → Table
cleared t = record {
  modlist = replicate (length t.modlist) 0;
  seg_list = replicate (length t.seg_list) unset;
  module_constructed = 1;
}

module _ (modules : Modules) where
  -- A round of the loop over the modules: a result that is negative where the function returns it, and
  -- the next segInfoIndex.
  abbrev pub put_module : Option ℕ → ℕ → Exec Table (ℕ × ℕ)
  put_module none seg_info_index = fault
  put_module (some id) seg_info_index =
      let got = modules.get_module_info id in
      if is_neg got.0
      then pure (got.0, seg_info_index)
      else do index ← put_segments got.1 got.1.segments 0 seg_info_index; pure (0, index)

  -- The loop, of which `n` rounds are left from the m-th on.
  unfoldable pub put_modules : ℕ → ℕ → ℕ → Exec Table (ℕ × ℕ)
  unfolding put_segments
  put_modules zero m seg_info_index = pure (0, seg_info_index)
  put_modules (suc n) m seg_info_index =
      let next : ℕ → Exec Table (ℕ × ℕ) = put_modules n (suc m) in
      do
        t ← gets (λ t. t)
        out ← put_module (get_elem? t.modlist m) seg_info_index
        if is_neg out.0 then pure out else next out.1

  -- What follows the call of ksceKernelGetModuleList.
  abbrev pub fill : ℕ × ℕ × List ℕ → Exec Table ℕ
  fill got = do
    modify (λ t. record t { modlist = overwrite t.modlist got.2 })
    if is_neg got.0
        then pure got.0
        else do out ← put_modules got.1 0 0; if is_neg out.0 then pure out.0 else put_end out.1

  unfoldable pub construct_module_range_table : Exec Table ℕ
  unfolding put_modules
  construct_module_range_table t =
      if not (not_pos t.module_constructed)
      then done (0, t)
      else fill modules.get_module_list (cleared t)

-- qsort_imp is the parameter: what it makes of the segListSize entries with compare_segments.
unfoldable pub sort_segment_table : (List SegmentInfo → List SegmentInfo) → Exec Table ℕ
sort_segment_table qsort_imp t =
    if t.module_constructed == 0
    then done (neg 1, t)
    else done (0, record t { seg_list = qsort_imp t.seg_list })
