-- ===== src/Driver/Nodes/Texts.antt =====
-- driver/hooks_vfs_ops.c: the texts of the log lines about nodes of the file system.
use psvemmc.Base.{ℕ, List, [], ◌∷◌}

abbrev pub emmc : List ℕ
emmc = b'd' ∷ b'e' ∷ b'v' ∷ b'i' ∷ b'c' ∷ b'e' ∷ b':' ∷ b' ' ∷ b'e' ∷ b'm' ∷ b'm' ∷ b'c' ∷ 10 ∷ []

abbrev pub game_card : List ℕ
game_card =
    b'd' ∷ b'e' ∷ b'v' ∷ b'i' ∷ b'c' ∷ b'e' ∷ b':' ∷ b' ' ∷ b'g' ∷ b'a' ∷ b'm' ∷ b'e' ∷ b' ' ∷ b'c'
    ∷ b'a' ∷ b'r' ∷ b'd' ∷ 10 ∷ []

abbrev pub memory_card : List ℕ
memory_card =
    b'd' ∷ b'e' ∷ b'v' ∷ b'i' ∷ b'c' ∷ b'e' ∷ b':' ∷ b' ' ∷ b'm' ∷ b'e' ∷ b'm' ∷ b'o' ∷ b'r' ∷ b'y'
    ∷ b' ' ∷ b'c' ∷ b'a' ∷ b'r' ∷ b'd' ∷ 10 ∷ []

abbrev pub unknown : List ℕ
unknown =
    b'd' ∷ b'e' ∷ b'v' ∷ b'i' ∷ b'c' ∷ b'e' ∷ b':' ∷ b' ' ∷ b'u' ∷ b'n' ∷ b'k' ∷ b'n' ∷ b'o' ∷ b'w'
    ∷ b'n' ∷ 10 ∷ []

abbrev pub invalid : List ℕ
invalid =
    b'd' ∷ b'e' ∷ b'v' ∷ b'i' ∷ b'c' ∷ b'e' ∷ b':' ∷ b' ' ∷ b'i' ∷ b'n' ∷ b'v' ∷ b'a' ∷ b'l' ∷ b'i'
    ∷ b'd' ∷ 10 ∷ []

abbrev pub no_node : List ℕ
no_node =
    b'n' ∷ b'o' ∷ b'd' ∷ b'e' ∷ b' ' ∷ b'i' ∷ b's' ∷ b' ' ∷ b'n' ∷ b'o' ∷ b't' ∷ b' ' ∷ b's' ∷ b'e'
    ∷ b't' ∷ 10 ∷ []

abbrev pub no_prev_node : List ℕ
no_prev_node =
    b'p' ∷ b'r' ∷ b'e' ∷ b'v' ∷ b'_' ∷ b'n' ∷ b'o' ∷ b'd' ∷ b'e' ∷ b' ' ∷ b'i' ∷ b's' ∷ b' ' ∷ b'n'
    ∷ b'o' ∷ b't' ∷ b' ' ∷ b's' ∷ b'e' ∷ b't' ∷ 10 ∷ []

abbrev pub nodes : List ℕ
nodes = b'n' ∷ b'o' ∷ b'd' ∷ b'e' ∷ b's' ∷ b':' ∷ b' ' ∷ b'%' ∷ b'x' ∷ b' ' ∷ b'%' ∷ b'x' ∷ 10 ∷ []

abbrev pub no_dev_info : List ℕ
no_dev_info =
    b'd' ∷ b'e' ∷ b'v' ∷ b' ' ∷ b'i' ∷ b'n' ∷ b'f' ∷ b'o' ∷ b' ' ∷ b'i' ∷ b's' ∷ b' ' ∷ b'n' ∷ b'o'
    ∷ b't' ∷ b' ' ∷ b's' ∷ b'e' ∷ b't' ∷ 10 ∷ []

abbrev pub dev_info : List ℕ
dev_info =
    b'd' ∷ b'e' ∷ b'v' ∷ b' ' ∷ b'i' ∷ b'n' ∷ b'f' ∷ b'o' ∷ b':' ∷ b' ' ∷ b'%' ∷ b'x' ∷ b' ' ∷ b'%'
    ∷ b'x' ∷ b' ' ∷ b'%' ∷ b'x' ∷ 10 ∷ []

abbrev pub partition : List ℕ
partition =
    b'p' ∷ b'a' ∷ b'r' ∷ b't' ∷ b'i' ∷ b't' ∷ b'i' ∷ b'o' ∷ b'n' ∷ b':' ∷ b' ' ∷ b'%' ∷ b's' ∷ 10
    ∷ []

abbrev pub no_partition_raw : List ℕ
no_partition_raw =
    b'p' ∷ b'a' ∷ b'r' ∷ b't' ∷ b'i' ∷ b't' ∷ b'i' ∷ b'o' ∷ b'n' ∷ b' ' ∷ b'r' ∷ b'a' ∷ b'w' ∷ b':'
    ∷ b' ' ∷ b'n' ∷ b'o' ∷ b't' ∷ b' ' ∷ b's' ∷ b'e' ∷ b't' ∷ 10 ∷ []

abbrev pub no_partition : List ℕ
no_partition =
    b'p' ∷ b'a' ∷ b'r' ∷ b't' ∷ b'i' ∷ b't' ∷ b'i' ∷ b'o' ∷ b'n' ∷ b':' ∷ b' ' ∷ b'n' ∷ b'o' ∷ b't'
    ∷ b' ' ∷ b's' ∷ b'e' ∷ b't' ∷ 10 ∷ []

abbrev pub prev_node : List ℕ
prev_node =
    b'p' ∷ b'r' ∷ b'e' ∷ b'v' ∷ b' ' ∷ b'n' ∷ b'o' ∷ b'd' ∷ b'e' ∷ b' ' ∷ b'i' ∷ b's' ∷ b' ' ∷ b'i'
    ∷ b'n' ∷ b'i' ∷ b't' ∷ b'i' ∷ b'a' ∷ b'l' ∷ b'i' ∷ b'z' ∷ b'e' ∷ b'd' ∷ b':' ∷ b' ' ∷ b'%'
    ∷ b'x' ∷ 10 ∷ []

abbrev pub no_device : List ℕ
no_device =
    b'd' ∷ b'e' ∷ b'v' ∷ b'i' ∷ b'c' ∷ b'e' ∷ b':' ∷ b' ' ∷ b'n' ∷ b'o' ∷ b't' ∷ b' ' ∷ b's' ∷ b'e'
    ∷ b't' ∷ 10 ∷ []

abbrev pub node_func1 : List ℕ
node_func1 =
    b'v' ∷ b'f' ∷ b's' ∷ b'_' ∷ b'n' ∷ b'o' ∷ b'd' ∷ b'e' ∷ b'_' ∷ b'f' ∷ b'u' ∷ b'n' ∷ b'c' ∷ b'1'
    ∷ b':' ∷ b' ' ∷ b'%' ∷ b'x' ∷ 10 ∷ []

abbrev pub node_func1_args : List ℕ
node_func1_args =
    b'd' ∷ b'e' ∷ b'v' ∷ b':' ∷ b' ' ∷ b'%' ∷ b's' ∷ b' ' ∷ b'm' ∷ b'o' ∷ b'u' ∷ b'n' ∷ b't' ∷ b':'
    ∷ b' ' ∷ b'%' ∷ b's' ∷ b' ' ∷ b'r' ∷ b'e' ∷ b's' ∷ b':' ∷ b' ' ∷ b'%' ∷ b'x' ∷ 10 ∷ []

abbrev pub node_func4 : List ℕ
node_func4 =
    b'v' ∷ b'f' ∷ b's' ∷ b'_' ∷ b'n' ∷ b'o' ∷ b'd' ∷ b'e' ∷ b'_' ∷ b'f' ∷ b'u' ∷ b'n' ∷ b'c' ∷ b'4'
    ∷ b':' ∷ b' ' ∷ b'%' ∷ b'x' ∷ 10 ∷ []

abbrev pub node_func4_args : List ℕ
node_func4_args =
    b'n' ∷ b'o' ∷ b'd' ∷ b'e' ∷ b':' ∷ b' ' ∷ b'%' ∷ b'x' ∷ b' ' ∷ b'd' ∷ b'e' ∷ b'v' ∷ b':' ∷ b' '
    ∷ b'%' ∷ b's' ∷ b' ' ∷ b'a' ∷ b'r' ∷ b'g' ∷ b'1' ∷ b':' ∷ b' ' ∷ b'%' ∷ b'x' ∷ b' ' ∷ b'a'
    ∷ b'r' ∷ b'g' ∷ b'3' ∷ b':' ∷ b' ' ∷ b'%' ∷ b'x' ∷ b' ' ∷ b'r' ∷ b'e' ∷ b's' ∷ b':' ∷ b' '
    ∷ b'%' ∷ b'x' ∷ 10 ∷ []

abbrev pub separator : List ℕ
separator = b'-' ∷ b'-' ∷ b'-' ∷ b'-' ∷ 10 ∷ []

abbrev pub blank : List ℕ
blank = 10 ∷ []

abbrev pub node_func7 : List ℕ
node_func7 =
    b'v' ∷ b'f' ∷ b's' ∷ b'_' ∷ b'n' ∷ b'o' ∷ b'd' ∷ b'e' ∷ b'_' ∷ b'f' ∷ b'u' ∷ b'n' ∷ b'c' ∷ b'7'
    ∷ b':' ∷ b' ' ∷ b'%' ∷ b'x' ∷ 10 ∷ []

abbrev pub node_func7_args : List ℕ
node_func7_args =
    b'n' ∷ b'o' ∷ b'd' ∷ b'e' ∷ b':' ∷ b' ' ∷ b'%' ∷ b'0' ∷ b'8' ∷ b'x' ∷ b' ' ∷ b'a' ∷ b'r' ∷ b'g'
    ∷ b'1' ∷ b':' ∷ b' ' ∷ b'%' ∷ b'0' ∷ b'8' ∷ b'x' ∷ b' ' ∷ b'a' ∷ b'r' ∷ b'g' ∷ b'2' ∷ b':'
    ∷ b' ' ∷ b'%' ∷ b'0' ∷ b'8' ∷ b'x' ∷ b' ' ∷ b'a' ∷ b'r' ∷ b'g' ∷ b'3' ∷ b':' ∷ b' ' ∷ b'%'
    ∷ b'0' ∷ b'8' ∷ b'x' ∷ b' ' ∷ b'a' ∷ b'r' ∷ b'g' ∷ b'_' ∷ b'0' ∷ b':' ∷ b' ' ∷ b'%' ∷ b'0'
    ∷ b'8' ∷ b'x' ∷ b' ' ∷ b'r' ∷ b'e' ∷ b's' ∷ b':' ∷ b'%' ∷ b'0' ∷ b'8' ∷ b'x' ∷ 10 ∷ []

abbrev pub node_func9 : List ℕ
node_func9 =
    b'v' ∷ b'f' ∷ b's' ∷ b'_' ∷ b'n' ∷ b'o' ∷ b'd' ∷ b'e' ∷ b'_' ∷ b'f' ∷ b'u' ∷ b'n' ∷ b'c' ∷ b'9'
    ∷ b':' ∷ b' ' ∷ b'%' ∷ b'x' ∷ 10 ∷ []

abbrev pub node_func9_args : List ℕ
node_func9_args =
    b'n' ∷ b'o' ∷ b'd' ∷ b'e' ∷ b'0' ∷ b':' ∷ b' ' ∷ b'%' ∷ b'0' ∷ b'8' ∷ b'x' ∷ b' ' ∷ b'n' ∷ b'o'
    ∷ b'd' ∷ b'e' ∷ b'1' ∷ b':' ∷ b' ' ∷ b'%' ∷ b'0' ∷ b'8' ∷ b'x' ∷ b' ' ∷ b'd' ∷ b'e' ∷ b'v'
    ∷ b':' ∷ b' ' ∷ b'%' ∷ b's' ∷ b' ' ∷ b'a' ∷ b'r' ∷ b'g' ∷ b'3' ∷ b':' ∷ b' ' ∷ b'%' ∷ b'0'
    ∷ b'8' ∷ b'x' ∷ b' ' ∷ b'r' ∷ b'e' ∷ b's' ∷ b':' ∷ b'%' ∷ b'0' ∷ b'8' ∷ b'x' ∷ 10 ∷ []

abbrev pub nums : List ℕ
nums =
    b'v' ∷ b'f' ∷ b's' ∷ b'_' ∷ b'n' ∷ b'o' ∷ b'd' ∷ b'e' ∷ b'_' ∷ b'f' ∷ b'u' ∷ b'n' ∷ b'c' ∷ b'5'
    ∷ b'_' ∷ b'n' ∷ b'u' ∷ b'm' ∷ b' ' ∷ b'%' ∷ b'x' ∷ b' ' ∷ b'v' ∷ b'f' ∷ b's' ∷ b'_' ∷ b'n'
    ∷ b'o' ∷ b'd' ∷ b'e' ∷ b'_' ∷ b'f' ∷ b'u' ∷ b'n' ∷ b'c' ∷ b'6' ∷ b'_' ∷ b'n' ∷ b'u' ∷ b'm'
    ∷ b':' ∷ b' ' ∷ b'%' ∷ b'x' ∷ 10 ∷ []

abbrev pub func12 : List ℕ
func12 =
    b'v' ∷ b'f' ∷ b's' ∷ b'_' ∷ b'f' ∷ b'u' ∷ b'n' ∷ b'c' ∷ b'1' ∷ b'2' ∷ b':' ∷ b' ' ∷ b'%' ∷ b'x'
    ∷ b' ' ∷ b'%' ∷ b's' ∷ 10 ∷ []

abbrev pub func13 : List ℕ
func13 =
    b'v' ∷ b'f' ∷ b's' ∷ b'_' ∷ b'f' ∷ b'u' ∷ b'n' ∷ b'c' ∷ b'1' ∷ b'3' ∷ b':' ∷ b' ' ∷ b'%' ∷ b'x'
    ∷ 10 ∷ []

abbrev pub func13_args : List ℕ
func13_args =
    b'd' ∷ b'e' ∷ b'v' ∷ b':' ∷ b' ' ∷ b'%' ∷ b's' ∷ b' ' ∷ b'n' ∷ b'u' ∷ b'm' ∷ b':' ∷ b' ' ∷ b'%'
    ∷ b's' ∷ b' ' ∷ b'r' ∷ b'e' ∷ b's' ∷ b':' ∷ b' ' ∷ b'%' ∷ b'x' ∷ 10 ∷ []
