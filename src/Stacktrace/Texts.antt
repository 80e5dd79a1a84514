-- ===== src/Stacktrace/Texts.antt =====
-- driver/stacktrace.c and driver/thread_test.c: the texts of the log lines.
use psvemmc.Base.{ℕ, List, [], ◌∷◌}

abbrev pub global_thread : List ℕ
global_thread =
    b'(' ∷ b'g' ∷ b'l' ∷ b'o' ∷ b'b' ∷ b'a' ∷ b'l' ∷ b')' ∷ b' ' ∷ b'p' ∷ b'r' ∷ b'o' ∷ b'c' ∷ b'e'
    ∷ b's' ∷ b's' ∷ b':' ∷ b' ' ∷ b'%' ∷ b'0' ∷ b'8' ∷ b'x' ∷ b' ' ∷ b't' ∷ b'h' ∷ b'r' ∷ b'e'
    ∷ b'a' ∷ b'd' ∷ b':' ∷ b' ' ∷ b'%' ∷ b's' ∷ 10 ∷ b's' ∷ b't' ∷ b'a' ∷ b'c' ∷ b'k' ∷ b':' ∷ b' '
    ∷ b'%' ∷ b'0' ∷ b'8' ∷ b'x' ∷ b' ' ∷ b's' ∷ b't' ∷ b'a' ∷ b'c' ∷ b'k' ∷ b'S' ∷ b'i' ∷ b'z'
    ∷ b'e' ∷ b':' ∷ b' ' ∷ b'%' ∷ b'0' ∷ b'8' ∷ b'x' ∷ 10 ∷ []

abbrev pub sd_thread : List ℕ
sd_thread =
    b'(' ∷ b's' ∷ b'd' ∷ b')' ∷ b' ' ∷ b'p' ∷ b'r' ∷ b'o' ∷ b'c' ∷ b'e' ∷ b's' ∷ b's' ∷ b':' ∷ b' '
    ∷ b'%' ∷ b'0' ∷ b'8' ∷ b'x' ∷ b' ' ∷ b't' ∷ b'h' ∷ b'r' ∷ b'e' ∷ b'a' ∷ b'd' ∷ b':' ∷ b' '
    ∷ b'%' ∷ b's' ∷ 10 ∷ b's' ∷ b't' ∷ b'a' ∷ b'c' ∷ b'k' ∷ b':' ∷ b' ' ∷ b'%' ∷ b'0' ∷ b'8' ∷ b'x'
    ∷ b' ' ∷ b's' ∷ b't' ∷ b'a' ∷ b'c' ∷ b'k' ∷ b'S' ∷ b'i' ∷ b'z' ∷ b'e' ∷ b':' ∷ b' ' ∷ b'%'
    ∷ b'0' ∷ b'8' ∷ b'x' ∷ 10 ∷ []

abbrev pub global_word : List ℕ
global_word =
    b'(' ∷ b'g' ∷ b'l' ∷ b'o' ∷ b'b' ∷ b'a' ∷ b'l' ∷ b')' ∷ b' ' ∷ b'%' ∷ b'0' ∷ b'8' ∷ b'x' ∷ b':'
    ∷ b' ' ∷ b'%' ∷ b'0' ∷ b'8' ∷ b'x' ∷ b' ' ∷ b'%' ∷ b's' ∷ b' ' ∷ b'%' ∷ b'd' ∷ b' ' ∷ b'%'
    ∷ b'0' ∷ b'8' ∷ b'x' ∷ b' ' ∷ b'%' ∷ b'0' ∷ b'8' ∷ b'x' ∷ 10 ∷ []

abbrev pub sd_word : List ℕ
sd_word =
    b'(' ∷ b's' ∷ b'd' ∷ b')' ∷ b' ' ∷ b'%' ∷ b'0' ∷ b'8' ∷ b'x' ∷ b':' ∷ b' ' ∷ b'%' ∷ b'0' ∷ b'8'
    ∷ b'x' ∷ b' ' ∷ b'%' ∷ b's' ∷ b' ' ∷ b'%' ∷ b'd' ∷ b' ' ∷ b'%' ∷ b'0' ∷ b'8' ∷ b'x' ∷ b' '
    ∷ b'%' ∷ b'0' ∷ b'8' ∷ b'x' ∷ 10 ∷ []

abbrev pub manager : List ℕ
manager =
    b'S' ∷ b'c' ∷ b'e' ∷ b'K' ∷ b'e' ∷ b'r' ∷ b'n' ∷ b'e' ∷ b'l' ∷ b'T' ∷ b'h' ∷ b'r' ∷ b'e' ∷ b'a'
    ∷ b'd' ∷ b'M' ∷ b'g' ∷ b'r' ∷ []

abbrev pub tpidruro : List ℕ
tpidruro = b'T' ∷ b'P' ∷ b'I' ∷ b'D' ∷ b'R' ∷ b'U' ∷ b'R' ∷ b'O' ∷ b' ' ∷ b'%' ∷ b'x' ∷ 10 ∷ []

abbrev pub message : List ℕ
message =
    b'm' ∷ b'e' ∷ b's' ∷ b's' ∷ b'a' ∷ b'g' ∷ b'e' ∷ b' ' ∷ b'f' ∷ b'r' ∷ b'o' ∷ b'm' ∷ b' ' ∷ b't'
    ∷ b'h' ∷ b'r' ∷ b'e' ∷ b'a' ∷ b'd' ∷ 10 ∷ []

abbrev pub thread_failed : List ℕ
thread_failed =
    b'f' ∷ b'a' ∷ b'i' ∷ b'l' ∷ b'e' ∷ b'd' ∷ b' ' ∷ b't' ∷ b'o' ∷ b' ' ∷ b'c' ∷ b'r' ∷ b'e' ∷ b'a'
    ∷ b't' ∷ b'e' ∷ b' ' ∷ b't' ∷ b'h' ∷ b'r' ∷ b'e' ∷ b'a' ∷ b'd' ∷ 10 ∷ []

abbrev pub thread_created : List ℕ
thread_created =
    b'c' ∷ b'r' ∷ b'e' ∷ b'a' ∷ b't' ∷ b'e' ∷ b'd' ∷ b' ' ∷ b't' ∷ b'h' ∷ b'r' ∷ b'e' ∷ b'a' ∷ b'd'
    ∷ b' ' ∷ b'%' ∷ b'x' ∷ 10 ∷ []

abbrev pub delete_failed : List ℕ
delete_failed =
    b'f' ∷ b'a' ∷ b'i' ∷ b'l' ∷ b'e' ∷ b'd' ∷ b' ' ∷ b't' ∷ b'o' ∷ b' ' ∷ b'd' ∷ b'e' ∷ b'l' ∷ b'e'
    ∷ b't' ∷ b'e' ∷ b' ' ∷ b't' ∷ b'h' ∷ b'r' ∷ b'e' ∷ b'a' ∷ b'd' ∷ 10 ∷ []

abbrev pub thread_deleted : List ℕ
thread_deleted =
    b'd' ∷ b'e' ∷ b'l' ∷ b'e' ∷ b't' ∷ b'e' ∷ b'd' ∷ b' ' ∷ b't' ∷ b'h' ∷ b'r' ∷ b'e' ∷ b'a' ∷ b'd'
    ∷ 10 ∷ []
