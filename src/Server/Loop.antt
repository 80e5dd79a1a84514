-- ===== src/Server/Loop.antt =====
-- server/src/main.c: receive_commands, the loop of a session, and its switch. The `while(1)` loop takes
-- fuel, since it runs as long as the client sends commands.

use psvemmc.Base.{
  ℕ, zero, suc, Bool, true, false, Option, none, some, if◌then◌else◌, not, is_neg, neg, not_pos,
  le32, of_bytes, overwrite, List, Exec, pure, starve, ◌>>=◌,
}
use psvemmc.Server.State.{Sys, Server, recv}
use psvemmc.Server.Protocol.{Command, decode}
use psvemmc.Server.Handlers.{
  handle_command_0, handle_command_1, handle_command_2, handle_command_3, handle_command_4,
  handle_command_5, handle_command_6, handle_command_7, handle_command_8, handle_command_9,
  handle_command_10, handle_command_11, handle_command_12, handle_command_13, handle_command_14,
  handle_command_15,
}

-- `int command = -1`, of which the bytes that came are overwritten.
unfoldable pub received_command : List ℕ → Option Command
unfolding decode
received_command bytes = decode (of_bytes (overwrite (le32 (neg 1)) bytes))

module _ (sys : Sys) where
  -- The handler that the `switch` calls.
  unfoldable pub handle : Command → Exec Server ℕ
  unfolding handle_command_0 handle_command_1 handle_command_2 handle_command_3 handle_command_4
      handle_command_5 handle_command_6 handle_command_7 handle_command_8 handle_command_9
      handle_command_10 handle_command_11 handle_command_12 handle_command_13 handle_command_14
      handle_command_15
  handle Command.ping = handle_command_0 sys
  handle Command.term = handle_command_1 sys
  handle Command.init = handle_command_2 sys
  handle Command.deinit = handle_command_3 sys
  handle Command.read_sector = handle_command_4 sys
  handle Command.read_cluster = handle_command_5 sys
  handle Command.write_sector = handle_command_6 sys
  handle Command.write_cluster = handle_command_7 sys
  handle Command.read_sector_ms = handle_command_8 sys
  handle Command.read_cluster_ms = handle_command_9 sys
  handle Command.write_sector_ms = handle_command_10 sys
  handle Command.write_cluster_ms = handle_command_11 sys
  handle Command.read_sector_gc = handle_command_12 sys
  handle Command.read_cluster_gc = handle_command_13 sys
  handle Command.write_sector_gc = handle_command_14 sys
  handle Command.write_cluster_gc = handle_command_15 sys

  -- One round of the `switch`: whether the loop goes on.
  unfoldable pub dispatch : Option Command → Exec Server Bool
  unfolding handle
  dispatch none = pure false
  dispatch (some c) = do res ← handle c; pure (not (is_neg res))

  unfoldable pub receive_commands : ℕ → Exec Server (Unit {0})
  unfolding dispatch recv received_command
  receive_commands zero = starve
  receive_commands (suc fuel) =
      let again : Bool → Exec Server (Unit {0}) =
        λ b. elim b [ true ↦ receive_commands fuel | false ↦ pure tt ] in
      do
        got ← recv sys.net 4
        if not_pos got.0 then pure tt else (dispatch (received_command got.1) >>= again)
