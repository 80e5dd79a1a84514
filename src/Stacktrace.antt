-- ===== src/Stacktrace.antt =====
-- driver/stacktrace.c: the information on the current thread, and the trace of the words on its stack
-- that lie in segments of modules; and driver/thread_test.c, which prints from a thread of its own.
pub mod Texts
pub mod Traced
use psvemmc.Base.{
  ℕ, zero, suc, ◌+◌, ◌*◌, ◌/◌, Bool, true, false, Option, none, some, List, [], ◌∷◌, if◌then◌else◌,
  ◌||◌, ◌&&◌, ◌==◌, not_pos, is_neg, neg, add32, sub32, get_elem?, Exec, pure, fault, modify, ◌>>=◌,
  ◌>>◌, ◌-◌,
}
use psvemmc.Log.{Io, Log}
use psvemmc.Log.Lines.{Arg, int, str, Printf, global_line, sdstor_line}
use psvemmc.Mtable.{SegmentInfo, find_in_segments}

-- Of SceKernelThreadInfo the members that are used.
pub record ThreadInfo : Type 0 where
  pub size : ℕ
  pub process_id : ℕ
  pub name : List ℕ
  pub stack : ℕ
  pub stack_size : ℕ

-- What is not in the repository: the register TPIDRPRW and the word at an address, the size of
-- SceKernelThreadInfo, the words of the stack from &mark0 on and the address of the first, the calls, and
-- ksceKernelGetThreadInfo, which the code finds by its offset in SceKernelThreadMgr.
pub record System : Type 0 where
  pub tpidrprw : ℕ
  pub word_at : ℕ → ℕ
  pub thread_info_size : ℕ
  pub stack_word : ℕ → ℕ
  pub stack_ptr : ℕ
  pub get_module_info_for_kernel : List ℕ → ℕ × ℕ
  pub module_get_offset : ℕ → ℕ × ℕ
  pub get_thread_info : ℕ → ThreadInfo → ℕ × ThreadInfo
  pub create_mutex : ℕ
  pub create_thread : ℕ
  pub delete_thread : ℕ → ℕ
  pub io : Io
  pub snprintf : Printf

-- g_threadInfoMutex, the two logs, and g_segListKernel with moduleListIsConstructedKernel. `held` tells how
-- often the thread holds the mutex.
pub record Tracer : Type 0 where
  pub thread_info_mutex : ℕ
  pub held : ℕ
  pub global_log : Log
  pub sdstor_log : Log
  pub seg_list : List SegmentInfo
  pub is_constructed : ℕ

unfoldable pub init_thread_info_mutex : System → Tracer → Tracer
init_thread_info_mutex sys s = record s { thread_info_mutex = sys.create_mutex }

unfoldable pub deinit_thread_info_mutex : Tracer → Tracer
deinit_thread_info_mutex s = record s { thread_info_mutex = neg 1 }

unfoldable pub get_current_thread_id : System → ℕ
get_current_thread_id sys = if not_pos sys.tpidrprw then neg 1 else sys.word_at (sys.tpidrprw + 8)

-- The information after the memset, with its size.
abbrev pub blank_info : ℕ → ThreadInfo
blank_info size = record { size = size; process_id = 0; name = []; stack = 0; stack_size = 0 }

unfoldable pub get_current_thread_info : System → Tracer → (ℕ × ThreadInfo) × Tracer
unfolding get_current_thread_id
get_current_thread_info sys s =
    let locked = record s { held = suc s.held } in
    let thid = get_current_thread_id sys in
    let blank = blank_info sys.thread_info_size in
    let m_info = sys.get_module_info_for_kernel Texts.manager in
    let offset = sys.module_get_offset m_info.1 in
    let got = sys.get_thread_info thid blank in
    let unlocked = record locked { held = locked.held - 1 } in
    if is_neg m_info.0
    then ((neg 1, blank), unlocked)
    else if offset.0 == 0
    then (got, unlocked)
    else ((neg 1, blank), unlocked)

-- A line of one of the logs.
abbrev pub write_global : System → List ℕ → Tracer → Tracer
write_global sys line s = record s { global_log = global_line sys.io line s.global_log }

abbrev pub write_sd : System → List ℕ → Tracer → Tracer
write_sd sys line s = record s { sdstor_log = sdstor_line sys.io line s.sdstor_log }

abbrev pub thread_line : System → List ℕ → ThreadInfo → List ℕ
thread_line sys format t =
    sys.snprintf format (int t.process_id ∷ str t.name ∷ int t.stack ∷ int t.stack_size ∷ [])

unfoldable pub print_current_thread_info_global : System → Tracer → ℕ × Tracer
unfolding get_current_thread_info global_line
print_current_thread_info_global sys s =
    let got = get_current_thread_info sys s in
    (0, write_global sys (thread_line sys Texts.global_thread got.0.1) got.1)

unfoldable pub print_current_thread_info_sd : System → Tracer → ℕ × Tracer
unfolding get_current_thread_info sdstor_line
print_current_thread_info_sd sys s =
    let got = get_current_thread_info sys s in
    (0, write_sd sys (thread_line sys Texts.sd_thread got.0.1) got.1)

-- strcmp(xs, ys) == 0
abbrev pub strcmp_eq : List ℕ → List ℕ → Bool
strcmp_eq [] [] = true
strcmp_eq [] (y ∷ ys) = y == 0
strcmp_eq (x ∷ xs) [] = x == 0
strcmp_eq (x ∷ xs) (y ∷ ys) = let rest = strcmp_eq xs ys in (x == y) && ((x == 0) || rest)

-- What a trace is asked for.
pub record Search : Type 0 where
  pub module_name : List ℕ
  pub seg_index : ℕ
  pub verbose : ℕ

-- The tests for the segment of a word.
abbrev pub shows : Search → SegmentInfo → Bool
shows q x = (q.verbose == 1) || ((x.seg == q.seg_index) && strcmp_eq q.module_name x.module_name)

-- The line for the i-th word, in a segment.
abbrev pub word_line : System → List ℕ → ℕ → SegmentInfo → List ℕ
word_line sys format i x =
    let cur_value = sys.stack_word i in
    sys.snprintf format (
      int (add32 sys.stack_ptr (i * 4))
      ∷ int cur_value
      ∷ str x.module_name
      ∷ int x.seg
      ∷ int x.start
      ∷ int (sub32 cur_value x.start)
      ∷ [])

-- The round of the loop for the i-th word, whose entry was found.
abbrev pub trace_entry :
    (List ℕ → Tracer → Tracer)
    → System
    → List ℕ
    → Search
    → ℕ
    → Option SegmentInfo
    → Exec Tracer (Unit {0})
trace_entry write sys format q i none = fault
trace_entry write sys format q i (some x) =
    if shows q x then modify (write (word_line sys format i x)) else pure tt

abbrev pub trace_word :
    (List ℕ → Tracer → Tracer) → System → List ℕ → Search → ℕ → Exec Tracer (Unit {0})
trace_word write sys format q i s =
    let segidx = find_in_segments s.seg_list s.is_constructed (sys.stack_word i) in
    if is_neg segidx
    then pure tt s
    else trace_entry write sys format q i (get_elem? s.seg_list segidx) s

-- The loop, for `n` words from the i-th on.
unfoldable pub trace_from :
    (List ℕ → Tracer → Tracer) → System → List ℕ → Search → ℕ → ℕ → Exec Tracer (Unit {0})
unfolding find_in_segments
trace_from write sys format q zero i = pure tt
trace_from write sys format q (suc n) i =
    trace_word write sys format q i >> trace_from write sys format q n (suc i)

-- traceSize, of which a negative one ends the loop at once.
abbrev pub trace_size : System → ℕ → ℕ
trace_size sys stack_size =
    let size = add32 stack_size (sys.thread_info_size / 4) in if is_neg size then 0 else size

-- The two functions differ in the log and in the text of the line.
unfoldable pub stacktrace_from_here :
    (List ℕ → Tracer → Tracer) → System → List ℕ → Search → ℕ → Exec Tracer ℕ
unfolding trace_from get_current_thread_info
stacktrace_from_here write sys format q stack_size s =
    let got = get_current_thread_info sys s in
    (trace_from write sys format q (trace_size sys stack_size) 0 >> pure 0) got.1

unfoldable pub stacktrace_from_here_global : System → Search → ℕ → Exec Tracer ℕ
unfolding stacktrace_from_here global_line
stacktrace_from_here_global sys = stacktrace_from_here (write_global sys) sys Texts.global_word

unfoldable pub stacktrace_from_here_sd : System → Search → ℕ → Exec Tracer ℕ
unfolding stacktrace_from_here sdstor_line
stacktrace_from_here_sd sys = stacktrace_from_here (write_sd sys) sys Texts.sd_word

-- The register TPIDRURO is an argument.
unfoldable pub print_tpidruro : System → ℕ → Tracer → ℕ × Tracer
unfolding global_line
print_tpidruro sys tpidruro s =
    (0, write_global sys (sys.snprintf Texts.tpidruro (int tpidruro ∷ [])) s)

unfoldable pub test_thread : System → Tracer → ℕ × Tracer
unfolding print_current_thread_info_global global_line
test_thread sys s = (0, (print_current_thread_info_global sys (write_global sys Texts.message s)).1)

-- print_thread_info: the thread that it starts runs while it waits for its end.
unfoldable pub print_thread_info : System → Tracer → ℕ × Tracer
unfolding test_thread global_line
print_thread_info sys s =
    let new_thid = sys.create_thread in
    let created = write_global sys (sys.snprintf Texts.thread_created (int new_thid ∷ [])) s in
    let ended = (test_thread sys created).1 in
    let failed =
      (if is_neg (sys.delete_thread new_thid)
        then write_global sys Texts.delete_failed ended
        else ended) in
    if is_neg new_thid
    then (neg 1, write_global sys Texts.thread_failed s)
    else (0, write_global sys Texts.thread_deleted failed)
