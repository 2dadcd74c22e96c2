-- ===== src/Uwb/Device.antt =====
-- dw1000/include/deca_device_api.h and deca_regs.h: the constants, the configuration, and the calls
-- by which src/uwb.c sets the DW1000 driver up. The driver itself is the vendor's: what a call of
-- it returns is a parameter, and the calls are kept in a log, the last one first.
use tdoa.Base.{ℕ, Bool, if◌then◌else◌, List, ◌∷◌, ℤ, pos, neg}

abbrev pub dwt_success : ℤ
dwt_success = pos 0

abbrev pub dwt_error : ℤ
dwt_error = neg 1

abbrev pub dwt_br_6m8 : ℕ
dwt_br_6m8 = 2

abbrev pub dwt_prf_64m : ℕ
dwt_prf_64m = 2

abbrev pub dwt_pac8 : ℕ
dwt_pac8 = 0

abbrev pub dwt_plen_128 : ℕ
dwt_plen_128 = 0x14

abbrev pub dwt_phrmode_ext : ℕ
dwt_phrmode_ext = 0x3

abbrev pub start_tx_delayed : ℕ
start_tx_delayed = 1

abbrev pub start_rx_immediate : ℕ
start_rx_immediate = 0

abbrev pub dwt_leds_enable : ℕ
dwt_leds_enable = 0x01

abbrev pub dwt_leds_init_blink : ℕ
dwt_leds_init_blink = 0x02

abbrev pub dwt_loaducode : ℕ
dwt_loaducode = 0x01

-- The register of the length of a received frame, and the mask of its standard lengths.
abbrev pub rx_finfo_id : ℕ
rx_finfo_id = 0x10

abbrev pub rxflen_mask : ℕ
rxflen_mask = 0x7F

-- The events that can interrupt, each a bit of a word. The mask of all that the program enables
-- is their sum, since they are different bits.
pub data Interrupt : Type 0 where
  tfrs rfcg rphe rfce rfsl rfto rxpto sfdt : Interrupt

unfoldable pub interrupt_bit : Interrupt → ℕ
interrupt_bit tfrs = 0x00000080
interrupt_bit rfcg = 0x00004000
interrupt_bit rphe = 0x00001000
interrupt_bit rfce = 0x00008000
interrupt_bit rfsl = 0x00010000
interrupt_bit rfto = 0x00020000
interrupt_bit rxpto = 0x00200000
interrupt_bit sfdt = 0x04000000

pub record DwtConfig : Type 0 where
  pub chan : ℕ
  pub prf : ℕ
  pub tx_preamb_length : ℕ
  pub rx_pac : ℕ
  pub tx_code : ℕ
  pub rx_code : ℕ
  pub ns_sfd : ℕ
  pub data_rate : ℕ
  pub phr_mode : ℕ
  pub sfd_to : ℕ

pub data SetupCall : Type 0 where
  open_spi slow_rate fast_rate set_isr set_callbacks : SetupCall
  initialise set_tx_antenna_delay set_rx_antenna_delay set_leds : ℕ → SetupCall
  configure : DwtConfig → SetupCall
  set_interrupt : ℕ → ℕ → SetupCall

-- What `openspi` and `dwt_initialise` return.
pub record Driver : Type 0 where
  pub openspi : ℤ
  pub initialised : ℤ

module _ (calls : List SetupCall) where
  abbrev pub dwt_initialise : Driver → ℕ → ℤ × List SetupCall
  dwt_initialise driver config = (driver.initialised, initialise config ∷ calls)

  abbrev pub dwt_configure : DwtConfig → List SetupCall
  dwt_configure config = configure config ∷ calls

  abbrev pub dwt_setrxantennadelay : ℕ → List SetupCall
  dwt_setrxantennadelay antenna_dly = set_rx_antenna_delay antenna_dly ∷ calls

  abbrev pub dwt_settxantennadelay : ℕ → List SetupCall
  dwt_settxantennadelay antenna_dly = set_tx_antenna_delay antenna_dly ∷ calls

  -- The four callbacks of src/uwb.c
  abbrev pub dwt_setcallbacks : List SetupCall
  dwt_setcallbacks = set_callbacks ∷ calls

  abbrev pub dwt_setinterrupt : ℕ → ℕ → List SetupCall
  dwt_setinterrupt bitmask operation = set_interrupt bitmask operation ∷ calls

  abbrev pub dwt_setleds : ℕ → List SetupCall
  dwt_setleds mode = set_leds mode ∷ calls

-- While the line of the interrupt is up, and 0 otherwise
abbrev pub dwt_checkirq : Bool → ℕ
dwt_checkirq line = if line then 1 else 0
