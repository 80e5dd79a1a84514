-- ===== src/Tests/Logs.antt =====
-- Examples of the logs of driver/glog.c and driver/sdstor_log.c, and of module_start.
use psvemmc.Base.{◌≡◌, true, false, [], ◌∷◌, arith, inr}
use psvemmc.Log.{Io, Log, empty_log, init_log, open_log, close_log}
use psvemmc.Log.Reached.{Reached, IsLog, IsShared, Reached-IsLog}
use psvemmc.Driver.Module.{
  StoresContext, HasContexts, loaded_module, module_start, module_start-HasContexts,
}
use psvemmc.Driver.Hooks.{Original, Hooked}
use psvemmc.Tests.{kernel}

-- Every file can be opened.
abbrev pub io : Io
io = record { open_file = λ t. 3; create_mutex = λ t. 4 }

-- One thread opens the log, another opens it and closes it.
abbrev shared : Log
shared = close_log (open_log io (open_log io (init_log io empty_log)))

shared-Reached : Reached io 1 shared
shared-Reached =
    Reached.closed (Reached.opened (omega arith) (Reached.opened (omega arith) Reached.start))

Reached-IsLog_example : IsLog 1 shared × IsShared io 1 shared
Reached-IsLog_example = Reached-IsLog io 1 shared shared-Reached

kernel-StoresContext : StoresContext kernel
kernel-StoresContext t dev = inr (λ e. ground (arith, e))

module_start-HasContexts_example :
    HasContexts (module_start kernel io loaded_module).1.driver
    × ((module_start kernel io loaded_module).1.driver.ms_ctx_initialized ≡ true)
    × ((module_start kernel io loaded_module).1.driver.pool.initialized ≡ false)
module_start-HasContexts_example = module_start-HasContexts kernel kernel-StoresContext io

-- A function that succeeds and does not touch the log, and a text of one byte.
abbrev original : Original
original = record { tai_continue = λ ctx h. (0, h); snprintf = λ line ctx. ctx ∷ [] }

abbrev hooked : Hooked
hooked = record { entered = 0; guards = []; log = shared }
