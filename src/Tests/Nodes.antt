-- ===== src/Tests/Nodes.antt =====
-- Examples of driver/dump.c and of the hooks of driver/hooks_vfs_ops.c that log nodes of the file system.
use psvemmc.Base.{◌<◌, ◌≡◌, refl, [], ◌∷◌, arith, word, length, replicate, Returns}
use psvemmc.Log.{empty_log, init_log}
use psvemmc.Log.Reached.{Reached}
use psvemmc.Dump
use psvemmc.Dump.{Dumps, dump_module}
use psvemmc.Dump.Texts
use psvemmc.Dump.Written.{Closed, Dumped, dump_module_lem}
use psvemmc.Driver.Nodes.{World, System, get_sd_stor_device_base, get_sd_stor_dev_index_by_address}
use psvemmc.Driver.Nodes.Index.{Indexes, get_sd_stor_dev_index_by_address_lem}
use psvemmc.Tests.Logs.{io}

-- A kernel with modules of two segments, whose files take all.
abbrev kernel : Dump.Kernel
kernel = record {
  get_module_info_for_kernel = λ name. (0, 7);
  get_module_info = λ id. (
    0,
    record { module_name = 97 ∷ []; segments = (4096, 100) ∷ (8192, 50) ∷ (0, 0) ∷ (0, 0) ∷ [] },
  );
  get_mem_block_base = λ uid. (0, 16384);
  get_sd_context_global = λ i. record {
    array_idx = i;
    uid_1000 = 1;
    membase_1000 = 16384;
    uid_10000 = 2;
    membase_10000 = 0;
  };
  memory = λ address size. replicate size 1;
  open_file = λ t path. 3;
  write_file = λ t fd bytes. length bytes;
  io = io;
  snprintf = λ format args. format;
}

abbrev dumps : Dumps
dumps = record { log = init_log io empty_log; files = []; open_files = 0; clock = 0 }

dump_module_lem_example :
    Returns (dump_module kernel Texts.sdif_name Texts.sdif_ready Texts.sdif_failed dumps) (λ out.
      (out.0 ≡ 0) × Closed kernel 0 dumps out.1 × Dumped kernel Texts.sdif_name 8192 50 dumps out.1)
dump_module_lem_example =
    dump_module_lem kernel 0 (omega arith) Texts.sdif_name Texts.sdif_ready Texts.sdif_failed 8192
      50 dumps refl Reached.start

-- Every word of the memory is its address, and the table of the devices starts at 1000.
abbrev system : System
system = record {
  tai_continue = λ ctx w. (5, w);
  module_get_offset = λ id. (0, 1000);
  dump = kernel;
  io = io;
  snprintf = λ format args. format;
}

abbrev world : World
world = record {
  entered = 0;
  guards = [];
  func5_num = 0;
  func6_num = 0;
  log = init_log io empty_log;
  dumps = dumps;
  memory = record { word_at = λ address. address; string_at = λ address. address ∷ [] };
}

base-bounded : get_sd_stor_device_base system < word
unfolding get_sd_stor_device_base
base-bounded = omega arith

get_sd_stor_dev_index_by_address_lem_example :
    Indexes (get_sd_stor_device_base system) 1168 (get_sd_stor_dev_index_by_address system 1168)
get_sd_stor_dev_index_by_address_lem_example =
    get_sd_stor_dev_index_by_address_lem system 1168 base-bounded
