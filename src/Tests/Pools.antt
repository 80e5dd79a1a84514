-- ===== src/Tests/Pools.antt =====
-- Examples of the pool of server/src/main.c and driver/psvemmc.c.
use psvemmc.Base.{[], ◌∷◌}
use psvemmc.Pool.{empty_pool}
use psvemmc.Pool.Lifecycle.{IsPool, Call, run, calls-IsPool}
use psvemmc.Tests.{blocks, blocks-IsSized}

calls-IsPool_example :
    IsPool (run blocks empty_pool (Call.init 512 2 ∷ Call.deinit ∷ Call.init 512 8 ∷ []))
calls-IsPool_example =
    calls-IsPool blocks (Call.init 512 2 ∷ Call.deinit ∷ Call.init 512 8 ∷ []) blocks-IsSized
