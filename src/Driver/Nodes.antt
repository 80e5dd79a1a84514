-- ===== src/Driver/Nodes.antt =====
-- driver/hooks_vfs_ops.c: the functions that log a node of the file system and the name of its device.
-- Hooks has the hooks that call them; Printed, Logged, Guarded and Index prove what they do. Each hook
-- has a variable <name>_entered, and a `World` that of the hook in question.
pub mod Texts
pub mod Hooks
pub mod Printed
pub mod Logged
pub mod Finished
pub mod Guarded
pub mod Index
use psvemmc.Base.{
  ℕ, suc, ◌+◌, ◌*◌, List, [], ◌∷◌, if◌then◌else◌, ◌==◌, is_neg, neg, add32, Exec, Outcome, done,
  invalid_access, out_of_fuel, pure, fault, gets, modify, ◌>>=◌, ◌>>◌,
}
use psvemmc.Log.{Io, Log}
use psvemmc.Log.Lines.{Arg, int, str, Printf, sdstor_line}
use psvemmc.Dump.{Dumps}
use psvemmc.Dump

-- The memory that pointers lead to: the 32-bit word at an address, and the string.
pub record Memory : Type 0 where
  pub word_at : ℕ → ℕ
  pub string_at : ℕ → List ℕ

-- The variable <name>_entered of the hook, vfs_node_func5_num and vfs_node_func6_num, the log of the
-- SD driver, and the files of driver/dump.c with the global log. `guards` is not in the code: what the
-- variable was each time that a hook logged its call.
pub record World : Type 0 where
  pub entered : ℕ
  pub guards : List ℕ
  pub func5_num : ℕ
  pub func6_num : ℕ
  pub log : Log
  pub dumps : Dumps
  pub memory : Memory

-- What is not in the repository: the function that is hooked (TAI_CONTINUE), which may call hooks itself
-- and change the memory, module_get_offset for the segment 1 and the offset 0x1558, and the other calls.
pub record System : Type 0 where
  pub tai_continue : ℕ → World → ℕ × World
  pub module_get_offset : ℕ → ℕ × ℕ
  pub dump : Dump.Kernel
  pub io : Io
  pub snprintf : Printf

-- The member of the structure at a pointer that has this offset. The null pointer leads to none.
abbrev pub load : ℕ → ℕ → Exec World ℕ
load p offset w = if p == 0 then invalid_access else done (w.memory.word_at (p + offset), w)

abbrev pub load_string : ℕ → Exec World (List ℕ)
load_string p w = if p == 0 then invalid_access else done (w.memory.string_at p, w)

-- A line of the log of the SD driver, between open_sdstor_dev_fs_log and close_sdstor_dev_fs_log.
abbrev pub log_line : System → List ℕ → World → World
log_line sys line w = record w { log = sdstor_line sys.io line w.log }

abbrev pub print_line : System → List ℕ → Exec World (Unit {0})
print_line sys line = modify (log_line sys line)

-- sizeof(sd_stor_device)
abbrev pub device_size : ℕ
device_size = 84

unfoldable pub get_sd_stor_device_base : System → ℕ
get_sd_stor_device_base sys =
    let info = sys.dump.get_module_info_for_kernel Dump.Texts.sdstor_name in
    let offset = sys.module_get_offset info.1 in
    if is_neg info.0 then neg 1 else if offset.0 == 0 then offset.1 else neg 1

-- base + i
abbrev pub device_at : ℕ → ℕ → ℕ
device_at base i = add32 base (i * device_size)

unfoldable pub get_sd_stor_dev_index_by_address : System → ℕ → ℕ
unfolding get_sd_stor_device_base
get_sd_stor_dev_index_by_address sys dev =
    let base = get_sd_stor_device_base sys in
    if dev == base
    then 0
    else if dev == device_at base 1
    then 1
    else if dev == device_at base 2
    then 2
    else if dev == device_at base 3
    then 3
    else if dev == device_at base 4
    then 4
    else neg 1

-- The line for an index.
abbrev pub device_name : ℕ → List ℕ
device_name index =
    if index == 0
    then Texts.emmc
    else if index == 1
    then Texts.game_card
    else if index == 2
    then Texts.memory_card
    else if index == 3
    then Texts.unknown
    else if index == 4
    then Texts.unknown
    else Texts.invalid

unfoldable pub print_sd_stor_dev_name_by_address : System → ℕ → World → World
unfolding get_sd_stor_dev_index_by_address sdstor_line
print_sd_stor_dev_name_by_address sys dev =
    log_line sys (device_name (get_sd_stor_dev_index_by_address sys dev))

-- The line about the node before another, if there is one.
abbrev pub print_nodes : System → ℕ → ℕ → Exec World (Unit {0})
print_nodes sys node prev_node =
    if prev_node == 0
    then print_line sys Texts.no_prev_node
    else (load prev_node 84 >>= λ unk_54.
        print_line sys (sys.snprintf Texts.nodes (int node ∷ int unk_54 ∷ [])))

unfoldable pub print_prev_node : System → ℕ → Exec World (Unit {0})
unfolding sdstor_line
print_prev_node sys node = load node 80 >>= print_nodes sys node

-- The line about the partition entry in the MBR; print_raw_partition_entry does nothing.
abbrev pub print_praw : System → ℕ → Exec World (Unit {0})
print_praw sys praw = if praw == 0 then print_line sys Texts.no_partition_raw else pure tt

-- The lines about a partition with a name; print_data_corresponding_to_numeric_partition does nothing.
abbrev pub print_named : System → ℕ → List ℕ → Exec World (Unit {0})
print_named sys partition numeric_name =
    print_line sys (sys.snprintf Texts.partition (str numeric_name ∷ []))
    >> (load partition 12 >>= print_praw sys)

unfoldable pub print_partition : System → ℕ → Exec World (Unit {0})
unfolding sdstor_line
print_partition sys partition =
    if partition == 0
    then print_line sys Texts.no_partition
    else (load_string (partition + 16) >>= print_named sys partition)

unfoldable pub print_device : System → ℕ → World → World
unfolding print_sd_stor_dev_name_by_address sdstor_line
print_device sys device =
    if device == 0
    then log_line sys Texts.no_device
    else print_sd_stor_dev_name_by_address sys device

-- The line about the node before, once more.
abbrev pub print_initialized : System → ℕ → Exec World (Unit {0})
print_initialized sys prev_node =
    if prev_node == 0
    then pure tt
    else print_line sys (sys.snprintf Texts.prev_node (int prev_node ∷ []))

-- The lines behind those about the partition.
abbrev pub print_rest : System → ℕ → ℕ → Exec World (Unit {0})
print_rest sys node device = load node 80 >>= λ prev_node.
    print_initialized sys prev_node >> modify (print_device sys device)

-- The lines about the members of the device info.
unfoldable pub print_members : System → ℕ → ℕ → ℕ → ℕ → Exec World (Unit {0})
unfolding print_partition print_device sdstor_line
print_members sys node partition device unk_8 =
    print_line sys (sys.snprintf Texts.dev_info (int partition ∷ int device ∷ int unk_8 ∷ []))
    >> (print_partition sys partition >> print_rest sys node device)

unfoldable pub print_dev_info : System → ℕ → ℕ → Exec World (Unit {0})
unfolding print_members
print_dev_info sys node dev_info =
    if dev_info == 0
    then print_line sys Texts.no_dev_info
    else (load dev_info 0 >>= λ partition.
        load dev_info 4 >>= λ device. load dev_info 8 >>= print_members sys node partition device)

-- The result, which is always 0, is left out.
unfoldable pub print_vfs_node : System → ℕ → Exec World (Unit {0})
unfolding print_prev_node print_dev_info sdstor_line
print_vfs_node sys node =
    if node == 0
    then print_line sys Texts.no_node
    else (print_prev_node sys node >> (load node 72 >>= print_dev_info sys node))
