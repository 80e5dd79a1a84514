-- ===== src/Netlog/Lifecycle.antt =====
-- driver/net.c: init_net, deinit_net and what they call.
use psvemmc.Base.{ℕ, suc, [], ◌∷◌, ◌++◌, if◌then◌else◌, ◌==◌, is_neg, neg, Exec, modify, ◌>>◌}
use psvemmc.Log.Lines.{int, global_line}
use psvemmc.Netlog.{Kernel, Link, tick, close_client_sock}
use psvemmc.Netlog.Listener.{report}
use psvemmc.Netlog.Texts

unfoldable pub init_listen_mutex : Kernel → Link → ℕ × Link
unfolding global_line
init_listen_mutex k s =
    let s1 = record s { mutex_id = k.create_mutex s.clock; clock = suc s.clock } in
    if is_neg s1.mutex_id
    then (neg 1, report k (k.snprintf Texts.mutex_failed (int s1.mutex_id ∷ [])) s1)
    else (0, report k Texts.mutex_created s1)

unfoldable pub init_listen_thread : Kernel → Link → ℕ × Link
unfolding global_line
init_listen_thread k s =
    let s1 = record s { thread_id = k.create_thread s.clock; clock = suc s.clock } in
    if is_neg s1.thread_id
    then (neg 1, report k Texts.thread_failed s1)
    else (0, report k (k.snprintf Texts.thread_created (int s1.thread_id ∷ [])) s1)

-- The result 0 means that the thread was started.
unfoldable pub init_net : Kernel → Link → ℕ × Link
unfolding init_listen_mutex init_listen_thread
init_net k s =
    let m = init_listen_mutex k s in
    let t = init_listen_thread k m.1 in
    if is_neg m.0 then (neg 1, m.1) else if is_neg t.0 then (neg 1, t.1) else (0, tick t.1)

unfoldable pub deinit_listen_mutex : Kernel → Link → Link
unfolding global_line
deinit_listen_mutex k s =
    let r = k.delete_mutex s.clock s.mutex_id in
    if is_neg r
    then report k (k.snprintf Texts.delete_mutex_failed (int r ∷ [])) (tick s)
    else report k Texts.mutex_deleted (tick s)

-- ksceKernelDeleteThread and what follows.
unfoldable pub delete_listen_thread : Kernel → Link → Link
unfolding global_line
delete_listen_thread k s =
    let r = k.delete_thread s.clock s.thread_id in
    let s1 = (if is_neg r then report k Texts.delete_thread_failed (tick s) else tick s) in
    report k Texts.thread_deleted s1

unfoldable pub close_server_sock : Kernel → Link → Link
unfolding global_line
close_server_sock k s =
    let close = λ (x : Link).
      (let x1 = record x {
        log =
            if is_neg (k.close x.clock x.server_sock)
            then global_line k.io Texts.close_server_failed x.log
            else x.log;
        closed = x.closed ++ (x.server_sock ∷ []);
        clock = suc x.clock;
      } in
        record x1 { server_sock = 0 }) in
    let s1 = (if s.server_sock == 0 then s else close s) in
    record s1 { log = global_line k.io Texts.server_closed s1.log }

-- `rest` is what the listening thread still does: ksceKernelWaitThreadEnd returns once it has ended.
unfoldable pub deinit_listen_thread : Kernel → Exec Link ℕ → Exec Link (Unit {0})
unfolding delete_listen_thread
deinit_listen_thread k rest = rest >> modify (delete_listen_thread k)

unfoldable pub deinit_net : Kernel → Exec Link ℕ → Exec Link (Unit {0})
unfolding deinit_listen_mutex deinit_listen_thread close_client_sock close_server_sock
deinit_net k rest =
    modify (deinit_listen_mutex k)
    >> deinit_listen_thread k rest
    >> modify (close_client_sock k)
    >> modify (close_server_sock k)
