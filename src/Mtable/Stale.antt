-- ===== src/Mtable/Stale.antt =====
-- driver/mtable.c: a table that could not be constructed, and the table after it was sorted.
use psvemmc.Base.{
  ℕ, zero, suc, ◌<◌, ◌≡◌, refl, true, false, arith, is_neg, neg, word, length, replicate, done,
}
use psvemmc.Mtable.{in_range, find_from, find_in_segments}
use psvemmc.Mtable.Construct.{Modules, Table, unset, construct_module_range_table}
use psvemmc.Mtable.Loaded.{listed}

find_from-unset : (n s item : ℕ) → item < word → find_from s (replicate n unset) item ≡ neg 1
unfolding find_from
find_from-unset zero s item w = refl
find_from-unset (suc n) s item w =
    let out : in_range item unset ≡ false = ground arith in
    rw (out, find_from-unset n (suc s) item w) refl

-- When ksceKernelGetModuleList fails, the result is its error, but the table counts as constructed: it
-- has no address, and every later call returns 0 and leaves it so, whatever the list of modules is then.
construct_failed_stays :
    (modules later : Modules) (t : Table) (item : ℕ)
    → t.module_constructed ≡ 0
    → is_neg modules.get_module_list.0 ≡ true
    → item < word
    → (t' : Table) × (construct_module_range_table modules t ≡ done (modules.get_module_list.0, t'))
      × (construct_module_range_table later t' ≡ done (0, t'))
      × (find_in_segments t'.seg_list t'.module_constructed item ≡ neg 1)
unfolding construct_module_range_table find_in_segments
construct_failed_stays modules later t item fresh bad w = (
  listed t modules.get_module_list.2,
  rw (fresh, bad) refl,
  refl,
  find_from-unset (length t.seg_list) 0 item w,
)
