-- ===== src/Spi.antt =====
-- dw1000/src/deca_spi.c, with dw1000/src/deca_mutex.c, which does nothing yet, and the two rates of
-- dw1000/src/port.c. The SPI device of Zephyr is a parameter.
pub mod Transfer
pub mod Port
use tdoa.Base.{
  ℕ, ◌+◌, ◌≡◌, Bool, true, false, Option, some, List, ◌>>=◌, if◌then◌else◌, length, read_at,
  write_at, replicate, ℤ, pos, neg,
}

-- `spi_transceive` at a frequency: the bytes received for the bytes sent.
pub record Bus : Type 1 where
  pub Device : Type 0
  pub device_is_ready : Device → Bool
  pub spi_transceive : Device → ℕ → List ℕ → List ℕ × Device

-- The bus is full duplex: as many bytes come in as go out.
abbrev pub FullDuplex : Bus → Type 0
FullDuplex bus =
    (device : bus.Device) (frequency : ℕ) (sent : List ℕ)
    → length (bus.spi_transceive device frequency sent).0 ≡ length sent

-- The size of `tx_buf` and `rx_buf`
abbrev pub size_buf : ℕ
size_buf = 255

-- `config` is the index of `spi_cfg` in `spi_cfgs`, and `frequency` what that entry holds.
pub record Spi (Device : Type 0) : Type 0 where
  pub config : ℕ
  pub frequency : ℕ
  pub tx_buf : List ℕ
  pub rx_buf : List ℕ
  pub device : Device

unfoldable pub decamutexon : ℤ
decamutexon = pos 0

module _ {Device : Type 0} (s : Spi Device) where
  -- One of the two configurations, and both buffers cleared
  unfoldable pub set_spi_speed : ℕ → ℕ → Spi Device
  set_spi_speed config frequency = record s {
    config = config;
    frequency = frequency;
    tx_buf = replicate size_buf 0;
    rx_buf = replicate size_buf 0;
  }

  unfoldable pub set_spi_speed_slow : Spi Device
  unfolding set_spi_speed
  set_spi_speed_slow = set_spi_speed 0 2000000

  unfoldable pub set_spi_speed_fast : Spi Device
  unfolding set_spi_speed
  set_spi_speed_fast = set_spi_speed 1 8000000

  unfoldable pub port_set_dw1000_slowrate : Spi Device
  unfolding set_spi_speed_slow
  port_set_dw1000_slowrate = set_spi_speed_slow

  unfoldable pub port_set_dw1000_fastrate : Spi Device
  unfolding set_spi_speed_fast
  port_set_dw1000_fastrate = set_spi_speed_fast

module _ (bus : Bus) (s : Spi bus.Device) where
  unfoldable pub openspi : ℤ × Spi bus.Device
  unfolding set_spi_speed_slow
  openspi = if bus.device_is_ready s.device then (pos 0, set_spi_speed_slow s) else (neg 1, s)

  -- `spi_transceive(spi, spi_cfg, &tx, &rx)`, after `tx_buf` became `filled`, with `n` bytes
  unfoldable pub transfer : List ℕ → ℕ → Option (Spi bus.Device)
  transfer filled n = do
    sent ← read_at filled 0 n
    let (received, device') = bus.spi_transceive s.device s.frequency sent
    rx ← write_at s.rx_buf 0 received
    some (record s { tx_buf = filled; rx_buf = rx; device = device' })

  unfoldable pub writetospi : ℕ → List ℕ → ℕ → List ℕ → Option (ℤ × Spi bus.Device)
  writetospi header_length header_buffer body_length body_buffer = do
    header ← read_at header_buffer 0 header_length
    tx1 ← write_at s.tx_buf 0 header
    body ← read_at body_buffer 0 body_length
    tx2 ← write_at tx1 header_length body
    after ← transfer tx2 (header_length + body_length)
    some (pos 0, after)

  -- The result, `readBuffer` as it is left, and the state
  unfoldable pub readfromspi : ℕ → List ℕ → ℕ → List ℕ → Option (ℤ × List ℕ × Spi bus.Device)
  readfromspi header_length header_buffer read_length read_buffer = do
    tx1 ← write_at s.tx_buf 0 (replicate (header_length + read_length) 0)
    header ← read_at header_buffer 0 header_length
    tx2 ← write_at tx1 0 header
    after ← transfer tx2 (header_length + read_length)
    body ← read_at after.rx_buf header_length read_length
    out ← write_at read_buffer 0 body
    some (pos 0, out, after)
