-- ===== src/Dump.antt =====
-- driver/dump.c: the functions that write memory blocks of the device contexts and data segments of
-- system modules to files, and say so in the global log.
pub mod Texts
pub mod Written
use psvemmc.Base.{
  ℕ, suc, ◌-◌, Option, none, some, List, [], ◌∷◌, ◌++◌, if◌then◌else◌, not, ◌==◌, is_neg, neg, take,
  get_elem?, Exec, pure, fault, modify, ◌>>=◌, ◌>>◌,
}
use psvemmc.Log.{Io, Log}
use psvemmc.Log.Lines.{Arg, int, str, Printf, global_line}
use psvemmc.Mtable.Construct.{ModuleInfo}

-- Of a context of an SD device array_idx, and the two memory blocks with their addresses.
pub record Context : Type 0 where
  pub array_idx : ℕ
  pub uid_1000 : ℕ
  pub membase_1000 : ℕ
  pub uid_10000 : ℕ
  pub membase_10000 : ℕ

-- The calls of the kernel, those of files by the number of the call; `memory` is what a range of
-- addresses holds.
pub record Kernel : Type 0 where
  pub get_module_info_for_kernel : List ℕ → ℕ × ℕ
  pub get_module_info : ℕ → ℕ × ModuleInfo
  pub get_mem_block_base : ℕ → ℕ × ℕ
  pub get_sd_context_global : ℕ → Context
  pub memory : ℕ → ℕ → List ℕ
  pub open_file : ℕ → List ℕ → ℕ
  pub write_file : ℕ → ℕ → List ℕ → ℕ
  pub io : Io
  pub snprintf : Printf

-- `files` has the files that were opened, each with the bytes that it took, `open_files` how many of
-- them are open.
pub record Dumps : Type 0 where
  pub log : Log
  pub files : List (List ℕ × List ℕ)
  pub open_files : ℕ
  pub clock : ℕ

abbrev pub report : Kernel → List ℕ → Dumps → Dumps
report k line s = record s { log = global_line k.io line s.log }

abbrev taken : ℕ → List ℕ → List ℕ
taken r bytes = if is_neg r then [] else take r bytes

-- The bytes that a file took from ksceIoWrite.
abbrev pub stored : Kernel → ℕ → ℕ → List ℕ → List ℕ
stored k t fd bytes = taken (k.write_file t fd bytes) bytes

-- ksceIoOpen of a file, ksceIoWrite of the bytes at an address, but for a size of 0, and ksceIoClose.
unfoldable pub save : Kernel → List ℕ → ℕ → ℕ → Dumps → ℕ × Dumps
save k path address size s =
    let fd = k.open_file s.clock path in
    let opened = record s { open_files = suc s.open_files; clock = suc s.clock } in
    let bytes = if size == 0 then [] else stored k opened.clock fd (k.memory address size) in
    let wrote = record opened {
      files = s.files ++ ((path, bytes) ∷ []);
      clock = suc opened.clock;
    } in
    if is_neg fd
    then (neg 1, record s { clock = suc s.clock })
    else (0, record wrote { open_files = wrote.open_files - 1 })

-- dumpSegment, of the address and the size of the segment. The address of minfo->segments is not 0,
-- since it is an array in *minfo.
unfoldable pub dump_range : Kernel → List ℕ → ℕ → ℕ × ℕ → Dumps → ℕ × Dumps
unfolding save global_line
dump_range k module_name index (vaddr, memsz) s =
    let line = k.snprintf Texts.segment_range (int index ∷ int vaddr ∷ int memsz ∷ []) in
    let module_name_copy = take 29 (k.snprintf module_name []) in
    let filename =
      take 99 (k.snprintf Texts.file_format (int vaddr ∷ str module_name_copy ∷ int index ∷ [])) in
    let s1 = report k line s in
    let s2 = report k (k.snprintf Texts.file_line (str filename ∷ [])) s1 in
    if vaddr == 0 then (neg 1, report k Texts.segment_empty s) else save k filename vaddr memsz s2

unfoldable pub dump_segment : Kernel → ModuleInfo → ℕ → Exec Dumps ℕ
unfolding dump_range
dump_segment k minfo index = elim (get_elem? minfo.segments index) [
  | none ↦ fault
  | some segment ↦
      λ s. (let out = dump_range k minfo.module_name index segment s in pure out.0 out.1)
]

-- The functions that dump the data of a module differ in its name and in the texts.
unfoldable pub dump_module : Kernel → List ℕ → List ℕ → List ℕ → Exec Dumps ℕ
unfolding dump_segment global_line
dump_module k name ready failed =
    let tai = k.get_module_info_for_kernel name in
    let info = k.get_module_info tai.1 in
    (if is_neg tai.0
      then pure tt
      else if is_neg info.0
      then modify (report k failed)
      else (modify (report k ready) >> dump_segment k info.1 1 >> pure tt))
    >> pure 0

unfoldable pub dump_iofilemgr_data : Kernel → Exec Dumps ℕ
unfolding dump_module
dump_iofilemgr_data k =
    dump_module k Texts.iofilemgr_name Texts.iofilemgr_ready Texts.iofilemgr_failed

unfoldable pub dump_sdstor_data : Kernel → Exec Dumps ℕ
unfolding dump_module
dump_sdstor_data k = dump_module k Texts.sdstor_name Texts.sdstor_ready Texts.sdstor_failed

unfoldable pub dump_sdif_data : Kernel → Exec Dumps ℕ
unfolding dump_module
dump_sdif_data k = dump_module k Texts.sdif_name Texts.sdif_ready Texts.sdif_failed

unfoldable pub dump_exfatfs_data : Kernel → Exec Dumps ℕ
unfolding dump_module
dump_exfatfs_data k = dump_module k Texts.exfatfs_name Texts.exfatfs_ready Texts.exfatfs_failed

-- What differs between the functions of the two sizes of memory blocks.
pub record Block : Type 0 where
  pub path : List ℕ
  pub size : ℕ
  pub ok : List ℕ
  pub mismatch : List ℕ
  pub no_base : List ℕ
  pub empty : List ℕ

abbrev pub block_1000 : Block
block_1000 = record {
  path = Texts.path_1000;
  size = 4096;
  ok = Texts.ok_1000;
  mismatch = Texts.mismatch_1000;
  no_base = Texts.no_base_1000;
  empty = Texts.empty_1000;
}

abbrev pub block_10000 : Block
block_10000 = record {
  path = Texts.path_10000;
  size = 65536;
  ok = Texts.ok_10000;
  mismatch = Texts.mismatch_10000;
  no_base = Texts.no_base_10000;
  empty = Texts.empty_10000;
}

-- dump_memblock_1000 and dump_memblock_10000
unfoldable pub dump_memblock : Kernel → Block → ℕ → Dumps → ℕ × Dumps
unfolding save
dump_memblock k b membase s = (0, (save k b.path membase b.size s).1)

-- validate_dump_memblock_1000 and validate_dump_memblock_10000
unfoldable pub validate_dump_memblock : Kernel → Block → ℕ → ℕ → ℕ → Dumps → ℕ × Dumps
unfolding dump_memblock global_line
validate_dump_memblock k b index uid membase s =
    let base = k.get_mem_block_base uid in
    let line = λ (text : List ℕ). k.snprintf text (int index ∷ []) in
    if membase == 0
    then (neg 1, report k (line b.empty) s)
    else if not (base.0 == 0)
    then (neg 1, report k (k.snprintf b.no_base (int index ∷ int base.0 ∷ [])) s)
    else if not (membase == base.1)
    then (neg 1, report k (line b.mismatch) s)
    else (0, (dump_memblock k b membase (report k (line b.ok) s)).1)

unfoldable pub dump_memblock_1000 : Kernel → ℕ → Dumps → ℕ × Dumps
unfolding dump_memblock
dump_memblock_1000 k = dump_memblock k block_1000

unfoldable pub dump_memblock_10000 : Kernel → ℕ → Dumps → ℕ × Dumps
unfolding dump_memblock
dump_memblock_10000 k = dump_memblock k block_10000

unfoldable pub validate_dump_memblock_1000 : Kernel → ℕ → ℕ → ℕ → Dumps → ℕ × Dumps
unfolding validate_dump_memblock
validate_dump_memblock_1000 k = validate_dump_memblock k block_1000

unfoldable pub validate_dump_memblock_10000 : Kernel → ℕ → ℕ → ℕ → Dumps → ℕ × Dumps
unfolding validate_dump_memblock
validate_dump_memblock_10000 k = validate_dump_memblock k block_10000

unfoldable pub dump_device_context_mem_blocks_1000 : Kernel → Dumps → ℕ × Dumps
unfolding validate_dump_memblock_1000
dump_device_context_mem_blocks_1000 k s =
    let dump = λ (x : Context) (s : Dumps).
      (validate_dump_memblock_1000 k x.array_idx x.uid_1000 x.membase_1000 s).1 in
    let s1 = dump (k.get_sd_context_global 0) s in
    let s2 = dump (k.get_sd_context_global 1) s1 in (0, dump (k.get_sd_context_global 2) s2)

unfoldable pub dump_device_context_mem_blocks_10000 : Kernel → Dumps → ℕ × Dumps
unfolding validate_dump_memblock_10000
dump_device_context_mem_blocks_10000 k s =
    let dump = λ (x : Context) (s : Dumps).
      (validate_dump_memblock_10000 k x.array_idx x.uid_10000 x.membase_10000 s).1 in
    let s1 = dump (k.get_sd_context_global 0) s in
    let s2 = dump (k.get_sd_context_global 1) s1 in (0, dump (k.get_sd_context_global 2) s2)
