-- ===== src/Driver/Module.antt =====
-- driver/psvemmc.c, module_start and module_stop, as they are built without ENABLE_REVERSING and
-- ENABLE_NETWORK (driver/defines.h): the mutex of driver/stacktrace.c, the logs and the devices, in
-- order.
use psvemmc.Base.{
  ℕ, suc, ◌≡◌, ◌≢◌, ◌⊎◌, inl, inr, refl, ap, ◌∙◌, true, false, arith, is_neg, neg, ◌==◌, Bool-cases,
}
use psvemmc.Log.{
  Io, Log, empty_log, init_global_log, init_sdstor_log, deinit_global_log, deinit_sdstor_log,
}
use psvemmc.Driver.{Driver, Kernel, loaded, tick, psvemmc_deinitialize}
use psvemmc.Driver.Devices.{
  initialize_emmc_globals, initialize_gc_mmc_device, initialize_gc_sd_device, initialize_gc_globals,
  initialize_ms_globals,
}

pub record Module : Type 0 where
  pub driver : Driver
  pub global_log : Log
  pub sdstor_log : Log
  pub thread_info_mutex : ℕ

abbrev pub loaded_module : Module
loaded_module = record {
  driver = loaded;
  global_log = empty_log;
  sdstor_log = empty_log;
  thread_info_mutex = neg 1;
}

-- The results of the initializations are ignored.
unfoldable pub start_devices : Kernel → Driver → Driver
unfolding initialize_emmc_globals initialize_gc_globals initialize_ms_globals
start_devices k d =
    (initialize_ms_globals (initialize_gc_globals k (initialize_emmc_globals k d).1).1).1

-- SCE_KERNEL_START_SUCCESS
unfoldable pub module_start : Kernel → Io → Module → ℕ × Module
unfolding start_devices
module_start k io m = (
  0,
  record {
    driver = start_devices k m.driver;
    global_log = init_global_log io m.global_log;
    sdstor_log = init_sdstor_log io m.sdstor_log;
    thread_info_mutex = io.create_mutex m.global_log.clock;
  },
)

-- SCE_KERNEL_STOP_SUCCESS
unfoldable pub module_stop : Kernel → Module → ℕ × Module
unfolding psvemmc_deinitialize
module_stop k m = (
  0,
  record {
    driver = (psvemmc_deinitialize k m.driver).1;
    global_log = deinit_global_log m.global_log;
    sdstor_log = deinit_sdstor_log m.sdstor_log;
    thread_info_mutex = neg 1;
  },
)

-- The devices have nothing to do with the pool.
emmc_pool : (k : Kernel) (d : Driver) → (initialize_emmc_globals k d).1.pool ≡ d.pool
unfolding initialize_emmc_globals
emmc_pool k d = ground arith

gc_pool : (k : Kernel) (d : Driver) → (initialize_gc_globals k d).1.pool ≡ d.pool
unfolding initialize_gc_globals initialize_gc_mmc_device initialize_gc_sd_device
gc_pool k d = ground arith

-- ksceSdifInitializeSdContextPartMmc fails, or stores a context.
abbrev pub StoresContext : Kernel → Type 0
StoresContext k =
    (t dev : ℕ) → (is_neg (k.init_part_mmc t dev).0 ≡ true) ⊎ ((k.init_part_mmc t dev).1 ≢ 0)

-- A device that is open has its context.
pub record HasContexts (d : Driver) : Type 0 where
  pub emmc_context : (d.emmc_ctx_initialized ≡ false) ⊎ (d.emmc_ctx ≢ 0)
  pub gc_context : (d.gc_ctx_initialized ≡ false) ⊎ (d.gc_ctx ≢ 0)

module _ (k : Kernel) (stores : StoresContext k) where
  initialize_emmc_globals-HasContexts :
      (d : Driver) → HasContexts d → HasContexts (initialize_emmc_globals k d).1
  unfolding initialize_emmc_globals
  initialize_emmc_globals-HasContexts d h =
      ground (arith, h.emmc_context, h.gc_context, stores (suc d.clock) 0)

  initialize_gc_mmc_device-HasContexts :
      (d : Driver) → HasContexts d → HasContexts (initialize_gc_mmc_device k d).1
  unfolding initialize_gc_mmc_device
  initialize_gc_mmc_device-HasContexts d h =
      ground (arith, h.emmc_context, h.gc_context, stores (suc d.clock) 1)

  initialize_gc_sd_device-HasContexts :
      (d : Driver) → HasContexts d → HasContexts (initialize_gc_sd_device k d).1
  unfolding initialize_gc_sd_device
  initialize_gc_sd_device-HasContexts d h = ground (arith, h.emmc_context, h.gc_context)

  initialize_gc_globals-HasContexts :
      (d : Driver) → HasContexts d → HasContexts (initialize_gc_globals k d).1
  unfolding initialize_gc_globals
  initialize_gc_globals-HasContexts d h =
      let dev_type_idx = k.dev_type d.clock 1 in
      let h' : HasContexts (tick d) = record {
        emmc_context = h.emmc_context;
        gc_context = h.gc_context;
      } in
      elim (Bool-cases (dev_type_idx == 1)) [
        | inl e ↦ rw e (initialize_gc_mmc_device-HasContexts (tick d) h')
        | inr e ↦ elim (Bool-cases (dev_type_idx == 2)) [
          | inl e' ↦ rw (e, e') (initialize_gc_sd_device-HasContexts (tick d) h')
          | inr e' ↦ rw (e, e') h'
        ]
      ]

  -- Once the module is loaded and started, whatever devices are there and however their
  -- initialization goes, the internal storage and the game card are open only with a context that is
  -- not null, the memory card is open, and there is no pool. The kernel is assumed to store a context
  -- where it says that it initialized one.
  pub module_start-HasContexts :
      (io : Io)
      → (let d = (module_start k io loaded_module).1.driver in
          HasContexts d × (d.ms_ctx_initialized ≡ true) × (d.pool.initialized ≡ false))
  unfolding module_start start_devices initialize_ms_globals
  module_start-HasContexts io =
      let d1 = (initialize_emmc_globals k loaded).1 in
      let h = initialize_gc_globals-HasContexts d1 (
        initialize_emmc_globals-HasContexts loaded
          (record { emmc_context = inl refl; gc_context = inl refl })) in
      (
        record { emmc_context = h.emmc_context; gc_context = h.gc_context },
        refl,
        ap (λ p. p.initialized) (gc_pool k d1 ∙ emmc_pool k loaded),
      )
