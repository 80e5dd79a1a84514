-- ===== src/Tests/Segments.antt =====
-- Examples of the table of driver/mtable.c.
use psvemmc.Base.{
  ℕ, ◌<◌, ◌≤◌, ◌≡◌, ◌⊎◌, refl, List, [], ◌∷◌, ◌++◌, arith, if◌then◌else◌, ◌==◌, replicate, done,
  invalid_access,
}
use psvemmc.Mtable.{SegmentInfo}
use psvemmc.Mtable.Construct.{ModuleInfo, Modules, Table, unset, construct_module_range_table}
use psvemmc.Mtable.Constructed.{entries}
use psvemmc.Mtable.Loaded.{listed, construct_module_range_table_lem}

abbrev pub code_segment : SegmentInfo
code_segment = record { module_name = 97 ∷ []; seg = 0; start = 4096; end = 8192 }

abbrev pub data_segment : SegmentInfo
data_segment = record { module_name = 97 ∷ []; seg = 1; start = 12288; end = 16384 }

-- A kernel with two modules, of which the second has one segment.
abbrev info : ℕ → ModuleInfo
info id = record {
  module_name = replicate 28 id;
  segments =
      if id == 1
      then (4096, 100) ∷ (8192, 50) ∷ (0, 0) ∷ (0, 0) ∷ []
      else (0, 0) ∷ (12288, 8) ∷ (0, 0) ∷ (0, 0) ∷ [];
}

abbrev modules : Modules
modules = record { get_module_list = (0, 2, 1 ∷ 2 ∷ []); get_module_info = λ id. (0, info id) }

-- Room for four segments.
abbrev table : Table
table = record {
  modlist = 0 ∷ 0 ∷ 0 ∷ [];
  seg_list = unset ∷ unset ∷ unset ∷ unset ∷ [];
  module_constructed = 0;
}

construct_module_range_table_lem_example :
    ((3 < 4)
      × (construct_module_range_table modules table
          ≡ done (
            0,
            record (listed table (1 ∷ 2 ∷ [])) {
              seg_list = entries info (1 ∷ 2 ∷ []) ++ replicate 1 unset;
            },
          )))
    ⊎ ((4 ≤ 3) × (construct_module_range_table modules table ≡ invalid_access))
construct_module_range_table_lem_example =
    construct_module_range_table_lem modules info (1 ∷ 2 ∷ []) table (λ id. refl) refl (omega arith)
      refl

-- A table of two entries, and a sort that turns it round.
abbrev built : Table
built = record { modlist = []; seg_list = data_segment ∷ code_segment ∷ []; module_constructed = 1 }

abbrev turn : List SegmentInfo → List SegmentInfo
turn [] = []
turn (x ∷ []) = x ∷ []
turn (x ∷ y ∷ xs) = y ∷ x ∷ xs
