-- ===== src/Netlog/Texts.antt =====
-- driver/net.c: the texts of its log lines and of its ping.
use psvemmc.Base.{ℕ, List, [], ◌∷◌}

abbrev pub accept_failed : List ℕ
accept_failed =
    b'f' ∷ b'a' ∷ b'i' ∷ b'l' ∷ b'e' ∷ b'd' ∷ b' ' ∷ b't' ∷ b'o' ∷ b' ' ∷ b'a' ∷ b'c' ∷ b'c' ∷ b'e'
    ∷ b'p' ∷ b't' ∷ b' ' ∷ b's' ∷ b'o' ∷ b'c' ∷ b'k' ∷ b'e' ∷ b't' ∷ b' ' ∷ b'%' ∷ b'x' ∷ 10 ∷ []

abbrev pub accepted : List ℕ
accepted =
    b'A' ∷ b'c' ∷ b'c' ∷ b'e' ∷ b'p' ∷ b't' ∷ b'e' ∷ b'd' ∷ b' ' ∷ b'c' ∷ b'o' ∷ b'n' ∷ b'n' ∷ b'e'
    ∷ b'c' ∷ b't' ∷ b'i' ∷ b'o' ∷ b'n' ∷ b' ' ∷ b'f' ∷ b'r' ∷ b'o' ∷ b'm' ∷ b' ' ∷ b'%' ∷ b's'
    ∷ b':' ∷ b'%' ∷ b'd' ∷ 10 ∷ []

abbrev pub current_ip : List ℕ
current_ip = b'1' ∷ b'9' ∷ b'2' ∷ b'.' ∷ b'1' ∷ b'6' ∷ b'8' ∷ b'.' ∷ b'0' ∷ b'.' ∷ b'3' ∷ b'4' ∷ []

abbrev pub socket_failed : List ℕ
socket_failed =
    b'f' ∷ b'a' ∷ b'i' ∷ b'l' ∷ b'e' ∷ b'd' ∷ b' ' ∷ b't' ∷ b'o' ∷ b' ' ∷ b'c' ∷ b'r' ∷ b'e' ∷ b'a'
    ∷ b't' ∷ b'e' ∷ b' ' ∷ b's' ∷ b'o' ∷ b'c' ∷ b'k' ∷ b'e' ∷ b't' ∷ 10 ∷ []

abbrev pub socket_created : List ℕ
socket_created =
    b's' ∷ b'e' ∷ b'r' ∷ b'v' ∷ b'e' ∷ b'r' ∷ b' ' ∷ b's' ∷ b'o' ∷ b'c' ∷ b'k' ∷ b'e' ∷ b't' ∷ b' '
    ∷ b'c' ∷ b'r' ∷ b'e' ∷ b'a' ∷ b't' ∷ b'e' ∷ b'd' ∷ 10 ∷ []

abbrev pub bind_failed : List ℕ
bind_failed =
    b'f' ∷ b'a' ∷ b'i' ∷ b'l' ∷ b'e' ∷ b'd' ∷ b' ' ∷ b't' ∷ b'o' ∷ b' ' ∷ b'b' ∷ b'i' ∷ b'n' ∷ b'd'
    ∷ b' ' ∷ b's' ∷ b'o' ∷ b'c' ∷ b'k' ∷ b'e' ∷ b't' ∷ 10 ∷ []

abbrev pub binded : List ℕ
binded =
    b's' ∷ b'e' ∷ b'r' ∷ b'v' ∷ b'e' ∷ b'r' ∷ b' ' ∷ b's' ∷ b'o' ∷ b'c' ∷ b'k' ∷ b'e' ∷ b't' ∷ b' '
    ∷ b'b' ∷ b'i' ∷ b'n' ∷ b'd' ∷ b'e' ∷ b'd' ∷ b' ' ∷ b'%' ∷ b's' ∷ b':' ∷ b'%' ∷ b'd' ∷ 10 ∷ []

abbrev pub listen_failed : List ℕ
listen_failed =
    b'f' ∷ b'a' ∷ b'i' ∷ b'l' ∷ b'e' ∷ b'd' ∷ b' ' ∷ b't' ∷ b'o' ∷ b' ' ∷ b'l' ∷ b'i' ∷ b's' ∷ b't'
    ∷ b'e' ∷ b'n' ∷ b' ' ∷ b's' ∷ b'o' ∷ b'c' ∷ b'k' ∷ b'e' ∷ b't' ∷ 10 ∷ []

abbrev pub listening : List ℕ
listening =
    b'l' ∷ b'i' ∷ b's' ∷ b't' ∷ b'e' ∷ b'n' ∷ b'i' ∷ b'n' ∷ b'g' ∷ b' ' ∷ b'f' ∷ b'o' ∷ b'r' ∷ b' '
    ∷ b'c' ∷ b'o' ∷ b'n' ∷ b'n' ∷ b'e' ∷ b'c' ∷ b't' ∷ b'i' ∷ b'o' ∷ b'n' ∷ 10 ∷ []

abbrev pub exit_thread : List ℕ
exit_thread =
    b'e' ∷ b'x' ∷ b'i' ∷ b't' ∷ b' ' ∷ b'l' ∷ b'i' ∷ b's' ∷ b't' ∷ b'e' ∷ b'n' ∷ b' ' ∷ b't' ∷ b'h'
    ∷ b'r' ∷ b'e' ∷ b'a' ∷ b'd' ∷ 10 ∷ []

abbrev pub mutex_failed : List ℕ
mutex_failed =
    b'f' ∷ b'a' ∷ b'i' ∷ b'l' ∷ b'e' ∷ b'd' ∷ b' ' ∷ b't' ∷ b'o' ∷ b' ' ∷ b'c' ∷ b'r' ∷ b'e' ∷ b'a'
    ∷ b't' ∷ b'e' ∷ b' ' ∷ b'c' ∷ b'o' ∷ b'n' ∷ b'n' ∷ b' ' ∷ b'i' ∷ b'n' ∷ b'i' ∷ b't' ∷ b' '
    ∷ b'm' ∷ b'u' ∷ b't' ∷ b'e' ∷ b'x' ∷ b' ' ∷ b'%' ∷ b'x' ∷ 10 ∷ []

abbrev pub mutex_created : List ℕ
mutex_created =
    b'c' ∷ b'r' ∷ b'e' ∷ b'a' ∷ b't' ∷ b'e' ∷ b'd' ∷ b' ' ∷ b'c' ∷ b'o' ∷ b'n' ∷ b'n' ∷ b' ' ∷ b'i'
    ∷ b'n' ∷ b'i' ∷ b't' ∷ b' ' ∷ b'm' ∷ b'u' ∷ b't' ∷ b'e' ∷ b'x' ∷ 10 ∷ []

abbrev pub thread_failed : List ℕ
thread_failed =
    b'f' ∷ b'a' ∷ b'i' ∷ b'l' ∷ b'e' ∷ b'd' ∷ b' ' ∷ b't' ∷ b'o' ∷ b' ' ∷ b'c' ∷ b'r' ∷ b'e' ∷ b'a'
    ∷ b't' ∷ b'e' ∷ b' ' ∷ b't' ∷ b'h' ∷ b'r' ∷ b'e' ∷ b'a' ∷ b'd' ∷ 10 ∷ []

abbrev pub thread_created : List ℕ
thread_created =
    b'c' ∷ b'r' ∷ b'e' ∷ b'a' ∷ b't' ∷ b'e' ∷ b'd' ∷ b' ' ∷ b't' ∷ b'h' ∷ b'r' ∷ b'e' ∷ b'a' ∷ b'd'
    ∷ b' ' ∷ b'%' ∷ b'x' ∷ 10 ∷ []

abbrev pub delete_mutex_failed : List ℕ
delete_mutex_failed =
    b'f' ∷ b'a' ∷ b'i' ∷ b'l' ∷ b'e' ∷ b'd' ∷ b' ' ∷ b't' ∷ b'o' ∷ b' ' ∷ b'd' ∷ b'e' ∷ b'l' ∷ b'e'
    ∷ b't' ∷ b'e' ∷ b' ' ∷ b'c' ∷ b'o' ∷ b'n' ∷ b'n' ∷ b' ' ∷ b'i' ∷ b'n' ∷ b'i' ∷ b't' ∷ b' '
    ∷ b'm' ∷ b'u' ∷ b't' ∷ b'e' ∷ b'x' ∷ b' ' ∷ b'%' ∷ b'x' ∷ 10 ∷ []

abbrev pub mutex_deleted : List ℕ
mutex_deleted =
    b'd' ∷ b'e' ∷ b'l' ∷ b'e' ∷ b't' ∷ b'e' ∷ b'd' ∷ b' ' ∷ b'c' ∷ b'o' ∷ b'n' ∷ b'n' ∷ b' ' ∷ b'i'
    ∷ b'n' ∷ b'i' ∷ b't' ∷ b' ' ∷ b'm' ∷ b'u' ∷ b't' ∷ b'e' ∷ b'x' ∷ 10 ∷ []

abbrev pub delete_thread_failed : List ℕ
delete_thread_failed =
    b'f' ∷ b'a' ∷ b'i' ∷ b'l' ∷ b'e' ∷ b'd' ∷ b' ' ∷ b't' ∷ b'o' ∷ b' ' ∷ b'd' ∷ b'e' ∷ b'l' ∷ b'e'
    ∷ b't' ∷ b'e' ∷ b' ' ∷ b'c' ∷ b'o' ∷ b'n' ∷ b'n' ∷ b' ' ∷ b'l' ∷ b'i' ∷ b's' ∷ b't' ∷ b'e'
    ∷ b'n' ∷ b' ' ∷ b't' ∷ b'h' ∷ b'r' ∷ b'e' ∷ b'a' ∷ b'd' ∷ 10 ∷ []

abbrev pub thread_deleted : List ℕ
thread_deleted =
    b'd' ∷ b'e' ∷ b'l' ∷ b'e' ∷ b't' ∷ b'e' ∷ b'd' ∷ b' ' ∷ b'c' ∷ b'o' ∷ b'n' ∷ b'n' ∷ b' ' ∷ b'l'
    ∷ b'i' ∷ b's' ∷ b't' ∷ b'e' ∷ b'n' ∷ b' ' ∷ b't' ∷ b'h' ∷ b'r' ∷ b'e' ∷ b'a' ∷ b'd' ∷ 10 ∷ []

abbrev pub close_client_failed : List ℕ
close_client_failed =
    b'f' ∷ b'a' ∷ b'i' ∷ b'l' ∷ b'e' ∷ b'd' ∷ b' ' ∷ b't' ∷ b'o' ∷ b' ' ∷ b'c' ∷ b'l' ∷ b'o' ∷ b's'
    ∷ b'e' ∷ b' ' ∷ b'c' ∷ b'l' ∷ b'i' ∷ b'e' ∷ b'n' ∷ b't' ∷ b' ' ∷ b's' ∷ b'o' ∷ b'c' ∷ b'k'
    ∷ b'e' ∷ b't' ∷ 10 ∷ []

abbrev pub client_closed : List ℕ
client_closed =
    b'c' ∷ b'l' ∷ b'o' ∷ b's' ∷ b'e' ∷ b'd' ∷ b' ' ∷ b'c' ∷ b'l' ∷ b'i' ∷ b'e' ∷ b'n' ∷ b't' ∷ b' '
    ∷ b's' ∷ b'o' ∷ b'c' ∷ b'k' ∷ b'e' ∷ b't' ∷ 10 ∷ []

abbrev pub close_server_failed : List ℕ
close_server_failed =
    b'f' ∷ b'a' ∷ b'i' ∷ b'l' ∷ b'e' ∷ b'd' ∷ b' ' ∷ b't' ∷ b'o' ∷ b' ' ∷ b'c' ∷ b'l' ∷ b'o' ∷ b's'
    ∷ b'e' ∷ b' ' ∷ b's' ∷ b'e' ∷ b'r' ∷ b'v' ∷ b'e' ∷ b'r' ∷ b' ' ∷ b's' ∷ b'o' ∷ b'c' ∷ b'k'
    ∷ b'e' ∷ b't' ∷ 10 ∷ []

abbrev pub server_closed : List ℕ
server_closed =
    b'c' ∷ b'l' ∷ b'o' ∷ b's' ∷ b'e' ∷ b'd' ∷ b' ' ∷ b's' ∷ b'e' ∷ b'r' ∷ b'v' ∷ b'e' ∷ b'r' ∷ b' '
    ∷ b's' ∷ b'o' ∷ b'c' ∷ b'k' ∷ b'e' ∷ b't' ∷ 10 ∷ []

abbrev pub ping_text : List ℕ
ping_text =
    b'p' ∷ b'i' ∷ b'n' ∷ b'g' ∷ b' ' ∷ b'd' ∷ b'e' ∷ b'b' ∷ b'u' ∷ b'g' ∷ b' ' ∷ b'c' ∷ b'l' ∷ b'i'
    ∷ b'e' ∷ b'n' ∷ b't' ∷ 10 ∷ []

abbrev pub address_format : List ℕ
address_format = b'%' ∷ b'd' ∷ b'.' ∷ b'%' ∷ b'd' ∷ b'.' ∷ b'%' ∷ b'd' ∷ b'.' ∷ b'%' ∷ b'd' ∷ []
