-- ===== src/Mtable/Sorted.antt =====
-- driver/mtable.c, sort_segment_table: the table after it was sorted.
use mathlib.Core.List.{Permᴰ}
use mathlib.Core.List.Permᴰ
use psvemmc.Base.{List}
