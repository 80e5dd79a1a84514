-- ===== src/Mtable/Loaded.antt =====
-- driver/mtable.c, construct_module_range_table: the whole function.
use native.Mathlib.Decide.{dec_lt}
use psvemmc.Base.{
  ℕ, suc, ◌+◌, ◌-◌, ◌≤◌, ◌<◌, ◌≡◌, ◌⊎◌, inl, inr, refl, ap, sym, ◌∙◌, none, List, [], ◌∷◌, ◌++◌,
  append_assoc, arith, if◌then◌else◌, is_neg, length, drop, replicate, overwrite, get_elem?,
  length-replicate, Outcome, done, invalid_access, out_of_fuel, pure,
}
use psvemmc.Mtable.{SegmentInfo}
use psvemmc.Mtable.Construct.{
  ModuleInfo, Modules, Table, unset, put_modules, set_end, put_end, cleared, fill,
  construct_module_range_table,
}
use psvemmc.Mtable.Constructed.{
  holding, put-entry, get_elem?-append, entries, PutsAll, put_modules-PutsAll,
}

overwrite-drop :
    {A : Type 0} (xs ys : List A)
    → length ys ≤ length xs
    → overwrite xs ys ≡ ys ++ drop (length ys) xs
overwrite-drop [] [] h = refl
overwrite-drop [] (y ∷ ys) h = absurd (omega arith)
overwrite-drop (x ∷ xs) [] h = refl
overwrite-drop (x ∷ xs) (y ∷ ys) h = ap (λ l. y ∷ l) (overwrite-drop xs ys (omega arith))

get_elem?-end : {A : Type 0} (xs : List A) → get_elem? (xs ++ []) (length xs) ≡ none
get_elem?-end [] = refl
get_elem?-end (x ∷ xs) = get_elem?-end xs

-- The last write finds room, or leaves the table.
put_end-holding :
    (t : Table) (es : List SegmentInfo) (j : ℕ)
    → put_end (length es) (holding t es (suc j)) ≡ done (0, holding t es (suc j))
put_end-holding t es j =
    ap (λ found. set_end found (length es) (holding t es (suc j)))
      (get_elem?-append es unset (replicate j unset))
    ∙ ap then_zero (put-entry t es unset unset (replicate j unset))
    ∙ ap (λ l. done (0, record t { seg_list = l }))
        (append_assoc es (unset ∷ []) (replicate j unset))
  where
    then_zero : Outcome (Unit {0} × Table) → Outcome (ℕ × Table)
    then_zero (done (u, t')) = done (0, t')
    then_zero invalid_access = invalid_access
    then_zero out_of_fuel = out_of_fuel

put_end-full :
    (t : Table) (es : List SegmentInfo) → put_end (length es) (holding t es 0) ≡ invalid_access
put_end-full t es = ap (λ found. set_end found (length es) (holding t es 0)) (get_elem?-end es)

-- The table after the list of modules was stored.
abbrev pub listed : Table → List ℕ → Table
listed t ids = record (cleared t) { modlist = overwrite (replicate (length t.modlist) 0) ids }

-- When ksceKernelGetModuleList gives modules that fit into modlist, and ksceKernelGetModuleInfo
-- knows each, construct_module_range_table, called for the first time, has one of two outcomes.
-- If the table has more entries than the modules have segments with an address, the result is 0,
-- and the table holds exactly these segments in order, each with its module's name, its number
-- and its range, and behind them entries that no address is in. Else the function writes outside
-- of the table.
pub construct_module_range_table_lem :
    (modules : Modules) (info : ℕ → ModuleInfo) (ids : List ℕ) (t : Table)
    → ((id : ℕ) → modules.get_module_info id ≡ (0, info id))
    → modules.get_module_list ≡ (0, length ids, ids)
    → length ids ≤ length t.modlist
    → t.module_constructed ≡ 0
    → ((length (entries info ids) < length t.seg_list)
        × (construct_module_range_table modules t
            ≡ done (
              0,
              record (listed t ids) {
                seg_list =
                    entries info ids
                    ++ replicate (length t.seg_list - length (entries info ids)) unset;
              },
            )))
      ⊎ ((length t.seg_list ≤ length (entries info ids))
          × (construct_module_range_table modules t ≡ invalid_access))
unfolding construct_module_range_table
construct_module_range_table_lem modules info ids t known list room fresh = rw fresh (
    go (
      put_modules-PutsAll modules info known [] ids (drop (length ids) zeros) (listed t ids) []
        (length t.seg_list)
        (overwrite-drop zeros ids (omega (arith, length-replicate {A = ℕ} (length t.modlist) 0)))))
  where
    zeros : List ℕ
    zeros = replicate (length t.modlist) 0

    ending : Outcome ((ℕ × ℕ) × Table) → Outcome (ℕ × Table)
    ending (done (out, t')) = (if is_neg out.0 then pure out.0 else put_end out.1) t'
    ending invalid_access = invalid_access
    ending out_of_fuel = out_of_fuel

    es : List SegmentInfo
    es = entries info ids

    puts : Outcome ((ℕ × ℕ) × Table)
    puts = put_modules modules (length ids) 0 0 (holding (listed t ids) [] (length t.seg_list))

    same : fill modules modules.get_module_list (cleared t) ≡ ending puts
    same = ap (λ got. fill modules got (cleared t)) list

    filled :
        puts ≡ done ((0, 0 + length es), holding (listed t ids) es (length t.seg_list - length es))
        → fill modules modules.get_module_list (cleared t)
          ≡ put_end (length es) (holding (listed t ids) es (length t.seg_list - length es))
    filled e =
        let z : 0 + length es ≡ length es = omega arith in
        same
        ∙ ap ending e
        ∙ ap (λ n. put_end n (holding (listed t ids) es (length t.seg_list - length es))) z

    go :
        PutsAll
          (listed t ids)
          []
          (length t.seg_list)
          (entries info ids)
          (put_modules modules (length ids) 0 0 (holding (listed t ids) [] (length t.seg_list)))
        → ((length (entries info ids) < length t.seg_list)
            × (fill modules modules.get_module_list (cleared t)
                ≡ done (
                  0,
                  record (listed t ids) {
                    seg_list =
                        entries info ids
                        ++ replicate (length t.seg_list - length (entries info ids)) unset;
                  },
                )))
          ⊎ ((length t.seg_list ≤ length (entries info ids))
              × (fill modules modules.get_module_list (cleared t) ≡ invalid_access))
    go (inr (over, e)) = inr (omega arith, same ∙ ap ending e)
    go (inl (fits, e)) = elim (dec_lt (length es) (length t.seg_list)) [
      | yes more ↦
          let j : length t.seg_list - length es ≡ suc (length t.seg_list - suc (length es)) =
            omega arith in
          inl (
            more,
            filled e
                ∙ ap (λ n. put_end (length es) (holding (listed t ids) es n)) j
                ∙ put_end-holding (listed t ids) es (length t.seg_list - suc (length es))
                ∙ ap (λ n. done (0, holding (listed t ids) es n)) (sym j),
          )
      | no less ↦
          let full : length t.seg_list - length es ≡ 0 = omega arith in
          inr (
            omega arith,
            filled e
                ∙ ap (λ n. put_end (length es) (holding (listed t ids) es n)) full
                ∙ put_end-full (listed t ids) es,
          )
    ]
