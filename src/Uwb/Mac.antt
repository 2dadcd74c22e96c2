-- ===== src/Uwb/Mac.antt =====
-- include/mac.h: the packed `mac_packet_t` of 151 bytes, as its memory, and the bit fields of its
-- frame control word, of which the first is the lowest.
pub mod Layout
pub mod Fields
use tdoa.Base.{
  ℕ, ◌+◌, ◌*◌, ◌/◌, ◌%◌, ◌^◌, Option, some, List, ◌>>=◌, read_at, write_at, le_bytes, from_le,
}

abbrev pub packet_header_size : ℕ
packet_header_size = 21

abbrev pub packet_payload_size : ℕ
packet_payload_size = 128

abbrev pub packet_tail_size : ℕ
packet_tail_size = 2

-- `sizeof(mac_packet_t)`
abbrev pub packet_size : ℕ
packet_size = packet_header_size + packet_payload_size + packet_tail_size

abbrev pub offset_frame_control : ℕ
offset_frame_control = 0

abbrev pub offset_src_address : ℕ
offset_src_address = 13

abbrev pub offset_payload : ℕ
offset_payload = 21

pub data PacketType : Type 0 where
  beacon data_frame ack cmd : PacketType

unfoldable pub type_code : PacketType → ℕ
type_code beacon = 0
type_code data_frame = 1
type_code ack = 2
type_code cmd = 3

-- A field of `width` bits from bit `low` of a word.
unfoldable pub get_bits : ℕ → ℕ → ℕ → ℕ
get_bits word low width = word / 2 ^ low % 2 ^ width

unfoldable pub set_bits : ℕ → ℕ → ℕ → ℕ → ℕ
set_bits word low width value =
    word / 2 ^ (low + width) * 2 ^ (low + width) + value % 2 ^ width * 2 ^ low + word % 2 ^ low

-- The assignments of MAC80215_PACKET_INIT to the frame control word. `reserved` is not set.
unfoldable pub init_control : PacketType → ℕ → ℕ
init_control type word =
    let type_set = set_bits word 0 3 (type_code type) in
    let security_set = set_bits type_set 3 1 0 in
    let pending_set = set_bits security_set 4 1 0 in
    let ack_set = set_bits pending_set 5 1 0 in
    let pan_set = set_bits ack_set 6 1 1 in
    let dest_set = set_bits pan_set 10 2 3 in
    let version_set = set_bits dest_set 12 2 1 in set_bits version_set 14 2 3

-- MAC80215_PACKET_INIT
unfoldable pub packet_init : List ℕ → PacketType → Option (List ℕ)
packet_init packet type = do
  word ← read_at packet offset_frame_control 2
  write_at packet offset_frame_control (le_bytes 2 (init_control type (from_le word)))
