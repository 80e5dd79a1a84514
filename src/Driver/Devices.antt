-- ===== src/Driver/Devices.antt =====
-- driver/psvemmc.c, initialize_*_globals: the contexts of the devices are looked up as the module
-- starts.
use psvemmc.Base.{ℕ, Bool, true, false, if◌then◌else◌, ◌==◌, is_neg, neg}
use psvemmc.Driver.{Driver, Kernel, tick}

-- SCE_SDIF_DEV_EMMC and SCE_SDIF_DEV_GAME_CARD
abbrev pub sdif_dev_emmc : ℕ
sdif_dev_emmc = 0

abbrev pub sdif_dev_game_card : ℕ
sdif_dev_game_card = 1

abbrev set_emmc : ℕ → Bool → Driver → Driver
set_emmc ctx flag d = record (tick d) { emmc_ctx = ctx; emmc_ctx_initialized = flag }

abbrev set_gc : ℕ → Bool → Driver → Driver
set_gc ctx flag d = record (tick d) { gc_ctx = ctx; gc_ctx_initialized = flag }

module _ (k : Kernel) where
  unfoldable pub initialize_emmc_globals : Driver → ℕ × Driver
  initialize_emmc_globals d =
      let ctx = k.part_mmc d.clock sdif_dev_emmc in
      let d' = set_emmc ctx d.emmc_ctx_initialized d in
      if ctx == 0
      then (let (res, stored) = k.init_part_mmc d'.clock sdif_dev_emmc in
          if is_neg res then (neg 1, set_emmc stored false d') else (0, set_emmc stored true d'))
      else (0, record d' { emmc_ctx_initialized = true })

  unfoldable pub initialize_gc_mmc_device : Driver → ℕ × Driver
  initialize_gc_mmc_device d =
      let ctx = k.part_mmc d.clock sdif_dev_game_card in
      let d' = set_gc ctx d.gc_ctx_initialized d in
      if ctx == 0
      then (let (res, stored) = k.init_part_mmc d'.clock sdif_dev_game_card in
          if is_neg res then (neg 1, set_gc stored false d') else (0, set_gc stored true d'))
      else (0, record d' { gc_ctx_initialized = true })

  unfoldable pub initialize_gc_sd_device : Driver → ℕ × Driver
  initialize_gc_sd_device d =
      let ctx = k.part_sd d.clock sdif_dev_game_card in
      if ctx == 0 then (neg 1, set_gc ctx false d) else (0, set_gc ctx true d)

  unfoldable pub initialize_gc_globals : Driver → ℕ × Driver
  unfolding initialize_gc_mmc_device initialize_gc_sd_device
  initialize_gc_globals d =
      let dev_type_idx = k.dev_type d.clock sdif_dev_game_card in
      if dev_type_idx == 1
      then initialize_gc_mmc_device (tick d)
      else if dev_type_idx == 2
      then initialize_gc_sd_device (tick d)
      else (neg 1, tick d)

unfoldable pub initialize_ms_globals : Driver → ℕ × Driver
initialize_ms_globals d = (0, record d { ms_ctx_initialized = true })
