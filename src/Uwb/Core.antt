-- ===== src/Uwb/Core.antt =====
-- src/uwb.c but for its thread, and src/uwb_dummy.c's part in its table. The calls that set up
-- the driver are a log, of which `openspi` and `dwt_initialise` may fail.
pub mod Settings
pub mod Unplaced
pub mod Total
pub mod Rates
use tdoa.Base.{
  ℕ, ◌+◌, true, false, not, Option, some, List, [], ◌∷◌, if◌then◌else◌, ltb, leb, ◌==◌, ◌>>=◌,
  get_elem?, ℤ, pos, neg, is_zero, replicate,
}
use tdoa.Config.Platform.{Platform}
use tdoa.Config.State.{ConfigField, State}
use tdoa.Config.Api.{config_read_u8, config_read_u32, config_read_u8_array}
use tdoa.Uwb.Device.{
  dwt_br_6m8, dwt_prf_64m, dwt_pac8, dwt_plen_128, dwt_phrmode_ext, dwt_leds_enable,
  dwt_leds_init_blink, dwt_loaducode, Interrupt, tfrs, rfcg, rphe, rfce, rfsl, rfto, rxpto, sfdt,
  interrupt_bit, DwtConfig, SetupCall, open_spi, slow_rate, fast_rate, set_isr, Driver,
  dwt_initialise, dwt_configure, dwt_setrxantennadelay, dwt_settxantennadelay, dwt_setcallbacks,
  dwt_setinterrupt, dwt_setleds,
}
use tdoa.Uwb.Types.{UwbConfig, mode_anchor, mode_dummy, mode_max}

pub data Algorithm : Type 0 where
  tag_algorithm anchor_algorithm dummy_algorithm : Algorithm

-- A name is the list of its characters.
pub record Available : Type 0 where
  pub algorithm : Algorithm
  pub name : List ℕ

abbrev pub uwb_available_algorithms : List Available
uwb_available_algorithms =
    record { algorithm = tag_algorithm; name = 116 ∷ 97 ∷ 103 ∷ [] }
    ∷ record { algorithm = anchor_algorithm; name = 97 ∷ 110 ∷ 99 ∷ 104 ∷ 111 ∷ 114 ∷ [] }
    ∷ record { algorithm = dummy_algorithm; name = 100 ∷ 117 ∷ 109 ∷ 109 ∷ 121 ∷ [] }
    ∷ []

abbrev pub unknown_name : List ℕ
unknown_name = 85 ∷ 78 ∷ 75 ∷ 78 ∷ 79 ∷ 87 ∷ 78 ∷ []

abbrev pub antenna_delay : ℕ
antenna_delay = 16436

abbrev pub dwt_config : DwtConfig
dwt_config = record {
  chan = 5;
  prf = dwt_prf_64m;
  tx_preamb_length = dwt_plen_128;
  rx_pac = dwt_pac8;
  tx_code = 9;
  rx_code = 9;
  ns_sfd = 1;
  data_rate = dwt_br_6m8;
  phr_mode = dwt_phrmode_ext;
  sfd_to = 129;
}

-- `|` over different bits
abbrev pub interrupts : List Interrupt
interrupts = tfrs ∷ rfcg ∷ rfto ∷ rxpto ∷ rphe ∷ rfce ∷ rfsl ∷ sfdt ∷ []

unfoldable pub mask_of : List Interrupt → ℕ
unfolding interrupt_bit
mask_of [] = 0
mask_of (i ∷ is) = interrupt_bit i + mask_of is

-- The static data `algorithm` and `uwb_config`, and the calls made, the last one first.
pub record Core : Type 0 where
  pub algorithm : Algorithm
  pub uwb_config : UwbConfig
  pub setup : List SetupCall

-- The static data as the program starts.
abbrev pub core_boot : Core
core_boot = record {
  algorithm = dummy_algorithm;
  uwb_config = record {
    mode = 0;
    address = replicate 8 0;
    anchor_x_pos_mm = 0;
    anchor_y_pos_mm = 0;
  };
  setup = [];
}

unfoldable pub uwb_mode_count : ℕ
uwb_mode_count = mode_max

unfoldable pub uwb_mode_name : ℕ → Option (List ℕ)
unfolding uwb_mode_count
uwb_mode_name mode =
    if leb uwb_mode_count mode
    then some unknown_name
    else (do available ← get_elem? uwb_available_algorithms mode; some available.name)

-- The algorithm of a mode; that of before, for a mode that there is not.
unfoldable pub choose_algorithm : ℕ → Algorithm → Option Algorithm
unfolding uwb_mode_count
choose_algorithm mode before =
    if ltb mode uwb_mode_count
    then (do available ← get_elem? uwb_available_algorithms mode; some available.algorithm)
    else some before

-- The calls of the first half, after `dwt_initialise` succeeded
unfoldable pub configure_driver : List SetupCall → List SetupCall
unfolding mask_of
configure_driver calls =
    let fast = fast_rate ∷ calls in
    let configured = dwt_configure fast dwt_config in
    let tx_set = dwt_settxantennadelay configured antenna_delay in
    let rx_set = dwt_setrxantennadelay tx_set antenna_delay in
    let called = dwt_setcallbacks (set_isr ∷ rx_set) in
    let interrupting = dwt_setinterrupt called (mask_of interrupts) 1 in
    dwt_setleds interrupting (dwt_leds_enable + dwt_leds_init_blink)

module _ (p : Platform) (s : State p.Flash) where
  -- A number of the configuration, or what stands in for it if it cannot be read
  unfoldable pub read_coordinate : ConfigField → ℕ → Option ℕ
  read_coordinate field value = do
    (r, v) ← config_read_u32 p s field value
    some (if is_zero r then v else 0)

  unfoldable pub read_mode : ℕ → Option ℕ
  read_mode value = do
    (r, v) ← config_read_u8 p s ConfigField.mode value
    some (if is_zero r then v else mode_dummy)

  -- Only an anchor has a position.
  unfoldable pub read_position : UwbConfig → Option UwbConfig
  read_position c = elim (c.mode == mode_anchor) [
    | false ↦ some c
    | true ↦ do
      x ← read_coordinate ConfigField.anchor_x_pos_mm c.anchor_x_pos_mm
      y ← read_coordinate ConfigField.anchor_y_pos_mm c.anchor_y_pos_mm
      some (record c { anchor_x_pos_mm = x; anchor_y_pos_mm = y })
  ]

  -- The second half of `uwb_init`. That the address could not be read is only logged.
  unfoldable pub read_settings : Core → Option Core
  read_settings core = do
    mode ← read_mode (core.uwb_config.mode)
    algorithm ← choose_algorithm mode core.algorithm
    (_, address) ← config_read_u8_array p s ConfigField.address 8 (core.uwb_config.address)
    c ← read_position (record (core.uwb_config) { mode = mode; address = address })
    some (record core { algorithm = algorithm; uwb_config = c })

  unfoldable pub uwb_init : Driver → Core → Option (ℤ × Core)
  uwb_init driver core =
      let opened = open_spi ∷ core.setup in
      let (r, initialised) = dwt_initialise (slow_rate ∷ opened) driver dwt_loaducode in
      elim (is_zero driver.openspi) [
        | false ↦ some (neg 1, record core { setup = opened })
        | true ↦ elim (is_zero r) [
          | false ↦ some (neg 2, record core { setup = initialised })
          | true ↦ do
            after ← read_settings (record core { setup = configure_driver initialised })
            some (pos 0, after)
        ]
      ]
