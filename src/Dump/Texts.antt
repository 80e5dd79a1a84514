-- ===== src/Dump/Texts.antt =====
-- driver/dump.c: the names of modules and files, and the texts of the log lines.
use psvemmc.Base.{ℕ, List, [], ◌∷◌}

abbrev pub iofilemgr_name : List ℕ
iofilemgr_name =
    b'S' ∷ b'c' ∷ b'e' ∷ b'I' ∷ b'o' ∷ b'f' ∷ b'i' ∷ b'l' ∷ b'e' ∷ b'm' ∷ b'g' ∷ b'r' ∷ []

abbrev pub iofilemgr_ready : List ℕ
iofilemgr_ready =
    b'r' ∷ b'e' ∷ b'a' ∷ b'd' ∷ b'y' ∷ b' ' ∷ b't' ∷ b'o' ∷ b' ' ∷ b'd' ∷ b'u' ∷ b'm' ∷ b'p' ∷ b' '
    ∷ b'i' ∷ b'o' ∷ b'f' ∷ b'i' ∷ b'l' ∷ b'e' ∷ b'm' ∷ b'g' ∷ b'r' ∷ b' ' ∷ b'd' ∷ b'a' ∷ b't'
    ∷ b'a' ∷ b' ' ∷ b's' ∷ b'e' ∷ b'g' ∷ 10 ∷ []

abbrev pub iofilemgr_failed : List ℕ
iofilemgr_failed =
    b'c' ∷ b'a' ∷ b'n' ∷ b' ' ∷ b'n' ∷ b'o' ∷ b't' ∷ b' ' ∷ b'd' ∷ b'u' ∷ b'm' ∷ b'p' ∷ b' ' ∷ b'i'
    ∷ b'o' ∷ b'f' ∷ b'i' ∷ b'l' ∷ b'e' ∷ b'm' ∷ b'g' ∷ b'r' ∷ b' ' ∷ b'd' ∷ b'a' ∷ b't' ∷ b'a'
    ∷ b' ' ∷ b's' ∷ b'e' ∷ b'g' ∷ 10 ∷ []

abbrev pub sdstor_name : List ℕ
sdstor_name = b'S' ∷ b'c' ∷ b'e' ∷ b'S' ∷ b'd' ∷ b's' ∷ b't' ∷ b'o' ∷ b'r' ∷ []

abbrev pub sdstor_ready : List ℕ
sdstor_ready =
    b'r' ∷ b'e' ∷ b'a' ∷ b'd' ∷ b'y' ∷ b' ' ∷ b't' ∷ b'o' ∷ b' ' ∷ b'd' ∷ b'u' ∷ b'm' ∷ b'p' ∷ b' '
    ∷ b's' ∷ b'd' ∷ b's' ∷ b't' ∷ b'o' ∷ b'r' ∷ b' ' ∷ b'd' ∷ b'a' ∷ b't' ∷ b'a' ∷ b' ' ∷ b's'
    ∷ b'e' ∷ b'g' ∷ 10 ∷ []

abbrev pub sdstor_failed : List ℕ
sdstor_failed =
    b'c' ∷ b'a' ∷ b'n' ∷ b' ' ∷ b'n' ∷ b'o' ∷ b't' ∷ b' ' ∷ b'd' ∷ b'u' ∷ b'm' ∷ b'p' ∷ b' ' ∷ b's'
    ∷ b'd' ∷ b's' ∷ b't' ∷ b'o' ∷ b'r' ∷ b' ' ∷ b'd' ∷ b'a' ∷ b't' ∷ b'a' ∷ b' ' ∷ b's' ∷ b'e'
    ∷ b'g' ∷ 10 ∷ []

abbrev pub sdif_name : List ℕ
sdif_name = b'S' ∷ b'c' ∷ b'e' ∷ b'S' ∷ b'd' ∷ b'i' ∷ b'f' ∷ []

abbrev pub sdif_ready : List ℕ
sdif_ready =
    b'r' ∷ b'e' ∷ b'a' ∷ b'd' ∷ b'y' ∷ b' ' ∷ b't' ∷ b'o' ∷ b' ' ∷ b'd' ∷ b'u' ∷ b'm' ∷ b'p' ∷ b' '
    ∷ b's' ∷ b'd' ∷ b'i' ∷ b'f' ∷ b' ' ∷ b'd' ∷ b'a' ∷ b't' ∷ b'a' ∷ b' ' ∷ b's' ∷ b'e' ∷ b'g' ∷ 10
    ∷ []

abbrev pub sdif_failed : List ℕ
sdif_failed =
    b'c' ∷ b'a' ∷ b'n' ∷ b' ' ∷ b'n' ∷ b'o' ∷ b't' ∷ b' ' ∷ b'd' ∷ b'u' ∷ b'm' ∷ b'p' ∷ b' ' ∷ b's'
    ∷ b'd' ∷ b'i' ∷ b'f' ∷ b' ' ∷ b'd' ∷ b'a' ∷ b't' ∷ b'a' ∷ b' ' ∷ b's' ∷ b'e' ∷ b'g' ∷ 10 ∷ []

abbrev pub exfatfs_name : List ℕ
exfatfs_name = b'S' ∷ b'c' ∷ b'e' ∷ b'E' ∷ b'x' ∷ b'f' ∷ b'a' ∷ b't' ∷ b'f' ∷ b's' ∷ []

abbrev pub exfatfs_ready : List ℕ
exfatfs_ready =
    b'r' ∷ b'e' ∷ b'a' ∷ b'd' ∷ b'y' ∷ b' ' ∷ b't' ∷ b'o' ∷ b' ' ∷ b'd' ∷ b'u' ∷ b'm' ∷ b'p' ∷ b' '
    ∷ b'e' ∷ b'x' ∷ b'f' ∷ b'a' ∷ b't' ∷ b'f' ∷ b's' ∷ b' ' ∷ b'd' ∷ b'a' ∷ b't' ∷ b'a' ∷ b' '
    ∷ b's' ∷ b'e' ∷ b'g' ∷ 10 ∷ []

abbrev pub exfatfs_failed : List ℕ
exfatfs_failed =
    b'c' ∷ b'a' ∷ b'n' ∷ b' ' ∷ b'n' ∷ b'o' ∷ b't' ∷ b' ' ∷ b'd' ∷ b'u' ∷ b'm' ∷ b'p' ∷ b' ' ∷ b'e'
    ∷ b'x' ∷ b'f' ∷ b'a' ∷ b't' ∷ b'f' ∷ b's' ∷ b' ' ∷ b'd' ∷ b'a' ∷ b't' ∷ b'a' ∷ b' ' ∷ b's'
    ∷ b'e' ∷ b'g' ∷ 10 ∷ []

abbrev pub path_1000 : List ℕ
path_1000 =
    b'u' ∷ b'x' ∷ b'0' ∷ b':' ∷ b'd' ∷ b'u' ∷ b'm' ∷ b'p' ∷ b'/' ∷ b'p' ∷ b's' ∷ b'v' ∷ b'e' ∷ b'm'
    ∷ b'm' ∷ b'c' ∷ b'_' ∷ b'm' ∷ b'e' ∷ b'm' ∷ b'b' ∷ b'l' ∷ b'o' ∷ b'c' ∷ b'k' ∷ b'_' ∷ b'1'
    ∷ b'0' ∷ b'0' ∷ b'0' ∷ b'.' ∷ b'b' ∷ b'i' ∷ b'n' ∷ []

abbrev pub ok_1000 : List ℕ
ok_1000 =
    b'd' ∷ b'e' ∷ b'v' ∷ b'i' ∷ b'c' ∷ b'e' ∷ b':' ∷ b'%' ∷ b'x' ∷ b' ' ∷ b'm' ∷ b'e' ∷ b'm' ∷ b'b'
    ∷ b'a' ∷ b's' ∷ b'e' ∷ b' ' ∷ b'1' ∷ b'0' ∷ b'0' ∷ b'0' ∷ b' ' ∷ b'O' ∷ b'K' ∷ 10 ∷ []

abbrev pub mismatch_1000 : List ℕ
mismatch_1000 =
    b'd' ∷ b'e' ∷ b'v' ∷ b'i' ∷ b'c' ∷ b'e' ∷ b':' ∷ b'%' ∷ b'x' ∷ b' ' ∷ b'm' ∷ b'e' ∷ b'm' ∷ b'b'
    ∷ b'a' ∷ b's' ∷ b'e' ∷ b' ' ∷ b'1' ∷ b'0' ∷ b'0' ∷ b'0' ∷ b' ' ∷ b'd' ∷ b'o' ∷ b'e' ∷ b's'
    ∷ b' ' ∷ b'n' ∷ b'o' ∷ b't' ∷ b' ' ∷ b'm' ∷ b'a' ∷ b't' ∷ b'c' ∷ b'h' ∷ 10 ∷ []

abbrev pub no_base_1000 : List ℕ
no_base_1000 =
    b'd' ∷ b'e' ∷ b'v' ∷ b'i' ∷ b'c' ∷ b'e' ∷ b':' ∷ b'%' ∷ b'x' ∷ b' ' ∷ b'f' ∷ b'a' ∷ b'i' ∷ b'l'
    ∷ b'e' ∷ b'd' ∷ b' ' ∷ b't' ∷ b'o' ∷ b' ' ∷ b'g' ∷ b'e' ∷ b't' ∷ b' ' ∷ b'm' ∷ b'e' ∷ b'm'
    ∷ b'b' ∷ b'a' ∷ b's' ∷ b'e' ∷ b' ' ∷ b'1' ∷ b'0' ∷ b'0' ∷ b'0' ∷ b',' ∷ b' ' ∷ b'e' ∷ b'r'
    ∷ b'r' ∷ b'o' ∷ b'r' ∷ b':' ∷ b'%' ∷ b'x' ∷ 10 ∷ []

abbrev pub empty_1000 : List ℕ
empty_1000 =
    b'd' ∷ b'e' ∷ b'v' ∷ b'i' ∷ b'c' ∷ b'e' ∷ b':' ∷ b'%' ∷ b'x' ∷ b' ' ∷ b'm' ∷ b'e' ∷ b'm' ∷ b'b'
    ∷ b'a' ∷ b's' ∷ b'e' ∷ b' ' ∷ b'1' ∷ b'0' ∷ b'0' ∷ b'0' ∷ b' ' ∷ b'i' ∷ b's' ∷ b' ' ∷ b'e'
    ∷ b'm' ∷ b'p' ∷ b't' ∷ b'y' ∷ 10 ∷ []

abbrev pub path_10000 : List ℕ
path_10000 =
    b'u' ∷ b'x' ∷ b'0' ∷ b':' ∷ b'd' ∷ b'u' ∷ b'm' ∷ b'p' ∷ b'/' ∷ b'p' ∷ b's' ∷ b'v' ∷ b'e' ∷ b'm'
    ∷ b'm' ∷ b'c' ∷ b'_' ∷ b'm' ∷ b'e' ∷ b'm' ∷ b'b' ∷ b'l' ∷ b'o' ∷ b'c' ∷ b'k' ∷ b'_' ∷ b'1'
    ∷ b'0' ∷ b'0' ∷ b'0' ∷ b'0' ∷ b'.' ∷ b'b' ∷ b'i' ∷ b'n' ∷ []

abbrev pub ok_10000 : List ℕ
ok_10000 =
    b'd' ∷ b'e' ∷ b'v' ∷ b'i' ∷ b'c' ∷ b'e' ∷ b':' ∷ b'%' ∷ b'x' ∷ b' ' ∷ b'm' ∷ b'e' ∷ b'm' ∷ b'b'
    ∷ b'a' ∷ b's' ∷ b'e' ∷ b' ' ∷ b'1' ∷ b'0' ∷ b'0' ∷ b'0' ∷ b'0' ∷ b' ' ∷ b'O' ∷ b'K' ∷ 10 ∷ []

abbrev pub mismatch_10000 : List ℕ
mismatch_10000 =
    b'd' ∷ b'e' ∷ b'v' ∷ b'i' ∷ b'c' ∷ b'e' ∷ b':' ∷ b'%' ∷ b'x' ∷ b' ' ∷ b'm' ∷ b'e' ∷ b'm' ∷ b'b'
    ∷ b'a' ∷ b's' ∷ b'e' ∷ b' ' ∷ b'1' ∷ b'0' ∷ b'0' ∷ b'0' ∷ b'0' ∷ b' ' ∷ b'd' ∷ b'o' ∷ b'e'
    ∷ b's' ∷ b' ' ∷ b'n' ∷ b'o' ∷ b't' ∷ b' ' ∷ b'm' ∷ b'a' ∷ b't' ∷ b'c' ∷ b'h' ∷ 10 ∷ []

abbrev pub no_base_10000 : List ℕ
no_base_10000 =
    b'd' ∷ b'e' ∷ b'v' ∷ b'i' ∷ b'c' ∷ b'e' ∷ b':' ∷ b'%' ∷ b'x' ∷ b' ' ∷ b'f' ∷ b'a' ∷ b'i' ∷ b'l'
    ∷ b'e' ∷ b'd' ∷ b' ' ∷ b't' ∷ b'o' ∷ b' ' ∷ b'g' ∷ b'e' ∷ b't' ∷ b' ' ∷ b'm' ∷ b'e' ∷ b'm'
    ∷ b'b' ∷ b'a' ∷ b's' ∷ b'e' ∷ b' ' ∷ b'1' ∷ b'0' ∷ b'0' ∷ b'0' ∷ b'0' ∷ b',' ∷ b' ' ∷ b'e'
    ∷ b'r' ∷ b'r' ∷ b'o' ∷ b'r' ∷ b':' ∷ b'%' ∷ b'x' ∷ 10 ∷ []

abbrev pub empty_10000 : List ℕ
empty_10000 =
    b'd' ∷ b'e' ∷ b'v' ∷ b'i' ∷ b'c' ∷ b'e' ∷ b':' ∷ b'%' ∷ b'x' ∷ b' ' ∷ b'm' ∷ b'e' ∷ b'm' ∷ b'b'
    ∷ b'a' ∷ b's' ∷ b'e' ∷ b' ' ∷ b'1' ∷ b'0' ∷ b'0' ∷ b'0' ∷ b'0' ∷ b' ' ∷ b'i' ∷ b's' ∷ b' '
    ∷ b'e' ∷ b'm' ∷ b'p' ∷ b't' ∷ b'y' ∷ 10 ∷ []

abbrev pub segment_empty : List ℕ
segment_empty =
    b's' ∷ b'e' ∷ b'g' ∷ b'm' ∷ b'e' ∷ b'n' ∷ b't' ∷ b' ' ∷ b'i' ∷ b's' ∷ b' ' ∷ b'e' ∷ b'm' ∷ b'p'
    ∷ b't' ∷ b'y' ∷ 10 ∷ []

abbrev pub segment_range : List ℕ
segment_range = b'%' ∷ b'd' ∷ b' ' ∷ b'%' ∷ b'x' ∷ b' ' ∷ b'%' ∷ b'x' ∷ 10 ∷ []

abbrev pub file_format : List ℕ
file_format =
    b'u' ∷ b'x' ∷ b'0' ∷ b':' ∷ b'd' ∷ b'u' ∷ b'm' ∷ b'p' ∷ b'/' ∷ b'0' ∷ b'x' ∷ b'%' ∷ b'0' ∷ b'8'
    ∷ b'x' ∷ b'_' ∷ b'%' ∷ b's' ∷ b'_' ∷ b'%' ∷ b'd' ∷ b'.' ∷ b'b' ∷ b'i' ∷ b'n' ∷ []

abbrev pub file_line : List ℕ
file_line = b'%' ∷ b's' ∷ 10 ∷ []
