-- ===== src/Uwb/Radio.antt =====
-- What the algorithms of src/uwb_anchor.c and src/uwb_tag.c call: the DW1000 driver, the clock and
-- the random numbers of Zephyr. Their code is a parameter: what a call returns may depend on all
-- the calls made before it, the last one first.
use tdoa.Base.{ℕ, ◌^◌, ◌<◌, ◌≡◌, List, ◌∷◌, ℤ, le_bytes, length}
use tdoa.Uwb.Mac.{packet_size}

pub data Call : Type 0 where
  read_rx_timestamp read_tx_timestamp read_sys_time read_frame_info : Call
  read_rx_data : ℕ → ℕ → Call
  force_trx_off : Call
  rx_enable : ℕ → Call
  set_delayed_trx_time : ℕ → Call
  write_tx_data : ℕ → List ℕ → ℕ → Call
  write_tx_fctrl : ℕ → ℕ → ℕ → Call
  start_tx : ℕ → Call
  random uptime : Call

abbrev pub Calls : Type 0
Calls = List Call

-- `stack` is what a local `mac_packet_t` holds before the code writes to it.
pub record Radio : Type 0 where
  pub rx_timestamp : Calls → List ℕ
  pub tx_timestamp : Calls → List ℕ
  pub sys_time : Calls → List ℕ
  pub frame_info : Calls → ℕ
  pub rx_data : Calls → ℕ → List ℕ
  pub write_result : Calls → ℤ
  pub start_result : Calls → ℤ
  pub sys_rand32_get : Calls → ℕ
  pub uptime_ticks : Calls → ℕ
  pub ms_to_ticks_floor64 : ℕ → ℕ
  pub ticks_to_ms_floor32 : ℕ → ℕ
  pub stack : Calls → List ℕ

module _ (radio : Radio) (calls : Calls) where
  abbrev pub dwt_writetxdata : ℕ → List ℕ → ℕ → ℤ × Calls
  dwt_writetxdata tx_frame_length tx_frame_bytes tx_buffer_offset = (
    radio.write_result calls,
    Call.write_tx_data tx_frame_length tx_frame_bytes tx_buffer_offset ∷ calls,
  )

  abbrev pub dwt_writetxfctrl : ℕ → ℕ → ℕ → Calls
  dwt_writetxfctrl tx_frame_length tx_buffer_offset ranging =
      Call.write_tx_fctrl tx_frame_length tx_buffer_offset ranging ∷ calls

  abbrev pub dwt_starttx : ℕ → ℤ × Calls
  dwt_starttx mode = (radio.start_result calls, Call.start_tx mode ∷ calls)

  abbrev pub dwt_setdelayedtrxtime : ℕ → Calls
  dwt_setdelayedtrxtime starttime = Call.set_delayed_trx_time starttime ∷ calls

  -- The buffer that the caller gives is left with the time.
  abbrev pub dwt_readtxtimestamp : List ℕ × Calls
  dwt_readtxtimestamp = (radio.tx_timestamp calls, Call.read_tx_timestamp ∷ calls)

  abbrev pub dwt_readrxtimestamp : List ℕ × Calls
  dwt_readrxtimestamp = (radio.rx_timestamp calls, Call.read_rx_timestamp ∷ calls)

  abbrev pub dwt_readsystime : List ℕ × Calls
  dwt_readsystime = (radio.sys_time calls, Call.read_sys_time ∷ calls)

  abbrev pub dwt_forcetrxoff : Calls
  dwt_forcetrxoff = Call.force_trx_off ∷ calls

  -- Its result is not looked at anywhere.
  abbrev pub dwt_rxenable : ℕ → Calls
  dwt_rxenable mode = Call.rx_enable mode ∷ calls

  abbrev pub dwt_readrxdata : ℕ → ℕ → List ℕ × Calls
  dwt_readrxdata count rx_buffer_offset =
      (radio.rx_data calls count, Call.read_rx_data count rx_buffer_offset ∷ calls)

  -- Of the one register that is read
  abbrev pub dwt_read32bitreg : ℕ × Calls
  dwt_read32bitreg = (radio.frame_info calls, Call.read_frame_info ∷ calls)

-- What the driver promises: clocks are five bytes, lowest first, and a read of `n` bytes gives `n`.
pub record IsSound (radio : Radio) : Type 0 where
  pub sys_time_value : Calls → ℕ
  pub rx_time_value : Calls → ℕ
  pub tx_time_value : Calls → ℕ
  pub sys_time_bytes : (c : Calls) → radio.sys_time c ≡ le_bytes 5 (sys_time_value c)
  pub rx_time_bytes : (c : Calls) → radio.rx_timestamp c ≡ le_bytes 5 (rx_time_value c)
  pub tx_time_bytes : (c : Calls) → radio.tx_timestamp c ≡ le_bytes 5 (tx_time_value c)
  pub sys_time-lt : (c : Calls) → sys_time_value c < 2 ^ 40
  pub rx_time-lt : (c : Calls) → rx_time_value c < 2 ^ 40
  pub tx_time-lt : (c : Calls) → tx_time_value c < 2 ^ 40
  pub length-rx_data : (c : Calls) (n : ℕ) → length (radio.rx_data c n) ≡ n
  pub length-stack : (c : Calls) → length (radio.stack c) ≡ packet_size
