-- ===== src/Uwb/Core/Rates.antt =====
-- The SPI rate while `uwb_init` sets the driver up: the documentation of `dwt_initialise` wants
-- less than 3 MHz.
use tdoa.Base.{
  ℕ, ◌<◌, ◌≡◌, refl, ap, ◌∙◌, inl, inr, Bool-cases, some, List, [], ◌∷◌, arith, ℤ, pos, neg,
  is_zero, length, subst, sym,
}
use tdoa.Config.Platform.{Platform}
use tdoa.Config.State.{State}
use tdoa.Config.Tlv.Total.{IsReadable}
use tdoa.Spi.{
  Bus, Spi, openspi, set_spi_speed, set_spi_speed_slow, set_spi_speed_fast,
  port_set_dw1000_slowrate, port_set_dw1000_fastrate,
}
use tdoa.Uwb.Device.{SetupCall, open_spi, slow_rate, initialise, Driver}
use tdoa.Uwb.Core.{Core, configure_driver, uwb_init}
use tdoa.Uwb.Core.Total.{is_zero→pos, read_settings_total}
use tdoa.Uwb.Core.Settings.{uwb_init_run}

-- The SPI layer after the calls of a log.
unfoldable pub spi_after : (bus : Bus) → List SetupCall → Spi bus.Device → Spi bus.Device
unfolding openspi port_set_dw1000_slowrate port_set_dw1000_fastrate
spi_after bus [] s = s
spi_after bus (SetupCall.open_spi ∷ calls) s = (openspi bus (spi_after bus calls s)).1
spi_after bus (SetupCall.slow_rate ∷ calls) s = port_set_dw1000_slowrate (spi_after bus calls s)
spi_after bus (SetupCall.fast_rate ∷ calls) s = port_set_dw1000_fastrate (spi_after bus calls s)
spi_after bus (call ∷ calls) s = spi_after bus calls s

-- Each `dwt_initialise` of a log is called at a rate that it allows.
unfoldable pub AtSlowRate : (bus : Bus) → List SetupCall → Spi bus.Device → Type 0
unfolding spi_after
AtSlowRate bus [] s = Unit
AtSlowRate bus (SetupCall.initialise config ∷ calls) s =
    ((spi_after bus calls s).frequency < 3000000) × AtSlowRate bus calls s
AtSlowRate bus (call ∷ calls) s = AtSlowRate bus calls s

module _ (bus : Bus) (spi : Spi bus.Device) where
  configure_driver-AtSlowRate :
      (calls : List SetupCall)
      → AtSlowRate bus calls spi
      → AtSlowRate bus (configure_driver calls) spi
  unfolding configure_driver AtSlowRate
  configure_driver-AtSlowRate calls h = h

  configure_driver_fast :
      (calls : List SetupCall) → (spi_after bus (configure_driver calls) spi).frequency ≡ 8000000
  unfolding configure_driver spi_after port_set_dw1000_fastrate set_spi_speed_fast set_spi_speed
  configure_driver_fast calls = refl

  initialise-AtSlowRate :
      (calls : List SetupCall) (config : ℕ)
      → AtSlowRate bus calls spi
      → AtSlowRate bus (initialise config ∷ slow_rate ∷ open_spi ∷ calls) spi
  unfolding AtSlowRate spi_after port_set_dw1000_slowrate set_spi_speed_slow set_spi_speed
  initialise-AtSlowRate calls config h = (omega arith, h)

module _ (p : Platform) (s : State p.Flash) (h : IsReadable s) (bus : Bus) (spi : Spi bus.Device)
    (driver : Driver) (core : Core) where
  -- Over any contents of `_buffer`, be they a list of entries or not, with a length that `check_data`
  -- lets through, whether the driver starts or not and whatever stood in the static data, `uwb_init`
  -- comes to a result and keeps the eight bytes of the address; each `dwt_initialise` so far was called at an SPI rate below
  -- 3 MHz, if those before were; and if it returns 0, then the rate is left at 8 MHz.
  pub uwb_init-AtSlowRate :
      length core.uwb_config.address ≡ 8
      → AtSlowRate bus core.setup spi
      → (r : ℤ) × (after : Core) × (uwb_init p s driver core ≡ some (r, after))
        × (length after.uwb_config.address ≡ 8)
        × (AtSlowRate bus after.setup spi)
        × (r ≡ pos 0 → (spi_after bus after.setup spi).frequency ≡ 8000000)
  unfolding uwb_init AtSlowRate
  uwb_init-AtSlowRate has slow =
      let at = initialise-AtSlowRate bus spi core.setup 1 slow in
      let (after, run, same, eight) =
        read_settings_total p s h
          (record core {
            setup = configure_driver (initialise 1 ∷ slow_rate ∷ open_spi ∷ core.setup);
          })
          has in
      elim (Bool-cases (is_zero driver.openspi)) [
        | inr closed ↦
            (neg 1, record core { setup = open_spi ∷ core.setup }, ground arith, has, slow, λ e. cc)
        | inl opened ↦ elim (Bool-cases (is_zero driver.initialised)) [
          | inr failed ↦ (
            neg 2,
            record core { setup = initialise 1 ∷ slow_rate ∷ open_spi ∷ core.setup },
            ground arith,
            has,
            at,
            λ e. cc,
          )
          | inl started ↦ (
            pos 0,
            after,
            uwb_init_run p s driver core (is_zero→pos driver.openspi opened)
                (is_zero→pos driver.initialised started) run,
            eight,
            subst (λ calls. AtSlowRate bus calls spi) (sym same)
                (configure_driver-AtSlowRate bus spi _ at),
            λ _.
                ap (λ calls. (spi_after bus calls spi).frequency) same
                ∙ configure_driver_fast bus spi _,
          )
        ]
      ]
