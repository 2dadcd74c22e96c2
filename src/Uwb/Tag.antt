-- ===== src/Uwb/Tag.antt =====
-- src/uwb_tag.c
pub mod Decode
pub mod Receive
pub mod Heard
pub mod Total
use tdoa.Base.{
  ℕ, ◌+◌, ◌%◌, ◌^◌, Option, some, List, ◌∷◌, take, ltb, if◌then◌else◌, ◌>>=◌, read_at, write_at,
  from_le,
}
use tdoa.Uwb.Types.{UwbConfig, UwbEvent, timeout_maximum, UwbAlgorithm}
use tdoa.Uwb.Mac.{packet_size, offset_payload, offset_src_address}
use tdoa.Uwb.Device.{start_rx_immediate}
use tdoa.Uwb.Radio.{Calls, Radio, dwt_rxenable, dwt_readrxdata, dwt_read32bitreg}

-- The places in the packed `anchor_payload_t`.
abbrev pub offset_anchor_x : ℕ
offset_anchor_x = 0

abbrev pub offset_anchor_y : ℕ
offset_anchor_y = 4

-- The static data: `uwb_config` and `rx_packet`; and the calls made.
pub record Tag : Type 0 where
  pub config : UwbConfig
  pub rx_packet : List ℕ
  pub calls : Calls

-- What is logged of a packet.
pub record Sighting : Type 0 where
  pub src : List ℕ
  pub x : ℕ
  pub y : ℕ

unfoldable pub decode : List ℕ → Option Sighting
decode packet = do
  src ← read_at packet offset_src_address 8
  x ← read_at packet (offset_payload + offset_anchor_x) 4
  y ← read_at packet (offset_payload + offset_anchor_y) 4
  some (record { src = src; x = from_le x; y = from_le y })

module _ (radio : Radio) where
  unfoldable pub tag_init : Tag → UwbConfig → Tag
  tag_init t config = record t {
    config = config;
    calls = dwt_rxenable radio t.calls start_rx_immediate;
  }

  -- The packet that arrived is read over `rx_packet`, and the receiver is turned on again.
  unfoldable pub receive : Tag → Option Tag
  receive t = do
    let (frame_info, c1) = dwt_read32bitreg radio t.calls
    let length_field = frame_info % 2 ^ 7
    let read_size = if ltb packet_size length_field then packet_size else length_field
    let (bytes, c2) = dwt_readrxdata radio c1 read_size 0
    packet ← write_at (t.rx_packet) 0 (take read_size bytes)
    some (record t { rx_packet = packet; calls = dwt_rxenable radio c2 start_rx_immediate })

  unfoldable pub tag_on_event : Tag → UwbEvent → Option (ℕ × Tag)
  tag_on_event t UwbEvent.packet_received = do
    t' ← receive t
    _ ← decode (t'.rx_packet)
    some (timeout_maximum, t')
  tag_on_event t event =
      some (timeout_maximum, record t { calls = dwt_rxenable radio t.calls start_rx_immediate })

  abbrev pub uwb_tag_algorithm : UwbAlgorithm Tag
  uwb_tag_algorithm = record { init = tag_init; on_event = tag_on_event }
