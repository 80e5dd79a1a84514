-- ===== src/Tests/Traces.antt =====
-- Examples of the traces of driver/stacktrace.c.
use psvemmc.Base.{◌*◌, ◌+◌, refl, [], ◌∷◌, arith, Returns}
use psvemmc.Log.{empty_log, init_log}
use psvemmc.Stacktrace.{
  System, Tracer, Search, stacktrace_from_here_global, stacktrace_from_here_sd, write_global,
  write_sd,
}
use psvemmc.Stacktrace.Texts
use psvemmc.Stacktrace.Traced.{Leaves, stacktrace_from_here_lem}
use psvemmc.Tests.Segments.{code_segment, data_segment}
use psvemmc.Tests.Logs.{io}

-- The stack has the words 4000, 8100, 12200 and so on.
abbrev system : System
system = record {
  tpidrprw = 100;
  word_at = λ address. 9;
  thread_info_size = 8;
  stack_word = λ i. 4000 + 4100 * i;
  stack_ptr = 65536;
  get_module_info_for_kernel = λ name. (0, 7);
  module_get_offset = λ id. (0, 1);
  get_thread_info = λ id info. (0, info);
  create_mutex = 3;
  create_thread = 4;
  delete_thread = λ id. 0;
  io = io;
  snprintf = λ format args. format;
}

abbrev tracer : Tracer
tracer = record {
  thread_info_mutex = 3;
  held = 0;
  global_log = init_log io empty_log;
  sdstor_log = init_log io empty_log;
  seg_list = code_segment ∷ data_segment ∷ [];
  is_constructed = 1;
}

abbrev search : Search
search = record { module_name = 97 ∷ 0 ∷ []; seg_index = 0; verbose = 0 }

stacktrace_from_here_lem_example :
    Returns
      (stacktrace_from_here_global system search 2 tracer)
      (Leaves (write_global system) system Texts.global_word search 2 tracer)
    × Returns
        (stacktrace_from_here_sd system search 2 tracer)
        (Leaves (write_sd system) system Texts.sd_word search 2 tracer)
stacktrace_from_here_lem_example =
    stacktrace_from_here_lem system search 2 tracer refl (omega arith)
