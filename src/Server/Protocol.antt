-- ===== src/Server/Protocol.antt =====
-- server/src/main.c: the command codes and the packed structs of the protocol.
use psvemmc.Base.{ℕ, List, [], ◌∷◌, ◌++◌, le32, Option, none, some, replicate, if◌then◌else◌, ◌==◌}

-- PSVEMMC_COMMAND_*, in the order of their codes 0 to 15.
pub data Command : Type 0 where
  ping term init deinit : Command
  read_sector read_cluster write_sector write_cluster : Command
  read_sector_ms read_cluster_ms write_sector_ms write_cluster_ms : Command
  read_sector_gc read_cluster_gc write_sector_gc write_cluster_gc : Command

abbrev pub code : Command → ℕ
code ping = 0
code term = 1
code init = 2
code deinit = 3
code read_sector = 4
code read_cluster = 5
code write_sector = 6
code write_cluster = 7
code read_sector_ms = 8
code read_cluster_ms = 9
code write_sector_ms = 10
code write_cluster_ms = 11
code read_sector_gc = 12
code read_cluster_gc = 13
code write_sector_gc = 14
code write_cluster_gc = 15

-- The `switch` on a command that was received; `none` is its default.
unfoldable pub decode : ℕ → Option Command
decode n =
    if n == 0
    then some ping
    else if n == 1
    then some term
    else if n == 2
    then some init
    else if n == 3
    then some deinit
    else if n == 4
    then some read_sector
    else if n == 5
    then some read_cluster
    else if n == 6
    then some write_sector
    else if n == 7
    then some write_cluster
    else if n == 8
    then some read_sector_ms
    else if n == 9
    then some read_cluster_ms
    else if n == 10
    then some write_sector_ms
    else if n == 11
    then some write_cluster_ms
    else if n == 12
    then some read_sector_gc
    else if n == 13
    then some read_cluster_gc
    else if n == 14
    then some write_sector_gc
    else if n == 15
    then some write_cluster_gc
    else none

-- The response structs: three numbers, and the data of the commands that have some.
pub record Response : Type 0 where
  pub command : ℕ
  pub vita_err : ℕ
  pub proxy_err : ℕ
  pub content : List ℕ

-- The bytes of a packed response.
abbrev pub encode : Response → List ℕ
encode r = le32 r.command ++ (le32 r.vita_err ++ (le32 r.proxy_err ++ r.content))

-- memset(&resp, 0, ...); resp.command = ...: a fresh response with `size` bytes of data.
abbrev pub blank : Command → ℕ → Response
blank c size = record { command = code c; vita_err = 0; proxy_err = 0; content = replicate size 0 }

-- sizeof(command_N_request) - sizeof(int), for the requests with one number.
abbrev pub int_size : ℕ
int_size = 4

-- char data[10] = "emmcproxy"
abbrev pub emmcproxy : List ℕ
emmcproxy = b'e' ∷ b'm' ∷ b'm' ∷ b'c' ∷ b'p' ∷ b'r' ∷ b'o' ∷ b'x' ∷ b'y' ∷ 0 ∷ []
