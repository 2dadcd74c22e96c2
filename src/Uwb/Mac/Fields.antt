-- ===== src/Uwb/Mac/Fields.antt =====
-- The fields of a packet as MAC80215_LOG_PACKET of include/mac.h lists them, and what
-- MAC80215_PACKET_INIT does to them.
use tdoa.Base.{
  ℕ, ◌^◌, ◌<◌, ◌≡◌, refl, ap, ◌∙◌, Option, some, List, [], ◌∷◌, ◌>>=◌, arith, read_at, from_le,
  length, take, drop, ◌%◌, ◌/◌,
}
use tdoa.Uwb.Mac.{
  PacketType, type_code, get_bits, init_control, packet_init, packet_payload_size,
  offset_frame_control, offset_src_address, offset_payload, packet_size,
}
use tdoa.Uwb.Mac.Layout.{init_control_lem}

pub record PacketFields : Type 0 where
  pub frame_type : ℕ
  pub security_enabled : ℕ
  pub frame_pending : ℕ
  pub ack_required : ℕ
  pub pan_id : ℕ
  pub reserved : ℕ
  pub dest_addr_mode : ℕ
  pub frame_version : ℕ
  pub src_addr_mode : ℕ
  pub sequence_number : ℕ
  pub dest_pan_id : ℕ
  pub dest_address : List ℕ
  pub src_address : List ℕ
  pub payload : List ℕ
  pub deca_checksum : List ℕ

-- The values that the macro logs, in its order
unfoldable pub log_packet : List ℕ → Option PacketFields
log_packet packet = do
  control ← read_at packet offset_frame_control 2
  sequence_number ← read_at packet 2 1
  dest_pan_id ← read_at packet 3 2
  dest_address ← read_at packet 5 8
  src_address ← read_at packet offset_src_address 8
  payload ← read_at packet offset_payload packet_payload_size
  deca_checksum ← read_at packet 149 2
  let word = from_le control
  some (record {
    frame_type = get_bits word 0 3;
    security_enabled = get_bits word 3 1;
    frame_pending = get_bits word 4 1;
    ack_required = get_bits word 5 1;
    pan_id = get_bits word 6 1;
    reserved = get_bits word 7 3;
    dest_addr_mode = get_bits word 10 2;
    frame_version = get_bits word 12 2;
    src_addr_mode = get_bits word 14 2;
    sequence_number = from_le sequence_number;
    dest_pan_id = from_le dest_pan_id;
    dest_address = dest_address;
    src_address = src_address;
    payload = payload;
    deca_checksum = deca_checksum;
  })

abbrev pub initialised : PacketType → PacketFields → PacketFields
initialised type f = record f {
  frame_type = type_code type;
  security_enabled = 0;
  frame_pending = 0;
  ack_required = 0;
  pan_id = 1;
  dest_addr_mode = 3;
  frame_version = 1;
  src_addr_mode = 3;
}

-- The fields of a control word before the other bytes.
abbrev fields_of : ℕ → List ℕ → PacketFields
fields_of word rest = record {
  frame_type = get_bits word 0 3;
  security_enabled = get_bits word 3 1;
  frame_pending = get_bits word 4 1;
  ack_required = get_bits word 5 1;
  pan_id = get_bits word 6 1;
  reserved = get_bits word 7 3;
  dest_addr_mode = get_bits word 10 2;
  frame_version = get_bits word 12 2;
  src_addr_mode = get_bits word 14 2;
  sequence_number = from_le (take 1 rest);
  dest_pan_id = from_le (take 2 (drop 1 rest));
  dest_address = take 8 (drop 3 rest);
  src_address = take 8 (drop 11 rest);
  payload = take 128 (drop 19 rest);
  deca_checksum = take 2 (drop 147 rest);
}

log_packet_lem :
    (a b : ℕ) (rest : List ℕ)
    → length rest ≡ 149
    → log_packet (a ∷ b ∷ rest) ≡ some (fields_of (from_le (a ∷ b ∷ [])) rest)
unfolding log_packet
log_packet_lem a b rest l = rw l refl

packet_init_lem :
    (a b : ℕ) (rest : List ℕ) (type : PacketType)
    → packet_init (a ∷ b ∷ rest) type
      ≡ some (
          init_control type (from_le (a ∷ b ∷ [])) % 256
          ∷ init_control type (from_le (a ∷ b ∷ [])) / 256 % 256
          ∷ rest)
unfolding packet_init
packet_init_lem a b rest type = ground arith

fields_of-init_control :
    (type : PacketType) (word again : ℕ) (rest : List ℕ)
    → word < 2 ^ 16
    → again ≡ init_control type word
    → fields_of again rest ≡ initialised type (fields_of word rest)
fields_of-init_control type word again rest small e =
    let (c0, c1, c2, c3, c4, c5, c6, c7, c8, _) = init_control_lem type word small in
    rw (e, c0, c1, c2, c3, c4, c5, c6, c7, c8) refl

-- On a packet of 151 bytes the macro touches nothing outside it and keeps its length; the logged
-- fields of the result are those of before, with the type that it was given, the six other fields
-- of the control word that it names at their constants, and `reserved` as it was.
pub log_packet-packet_init :
    (packet : List ℕ) (type : PacketType)
    → length packet ≡ packet_size
    → from_le (take 2 packet) < 2 ^ 16
    → (f : PacketFields) × (after : List ℕ) × (log_packet packet ≡ some f)
      × (packet_init packet type ≡ some after)
      × (length after ≡ packet_size)
      × (log_packet after ≡ some (initialised type f))
log_packet-packet_init [] type l small = cc
log_packet-packet_init (a ∷ []) type l small = cc
log_packet-packet_init (a ∷ b ∷ rest) type l small =
    let word = from_le (a ∷ b ∷ []) in
    let control = init_control type word in
    let (_, _, _, _, _, _, _, _, _, fits) = init_control_lem type word small in
    let l' : length rest ≡ 149 = omega (arith, l) in
    let again : from_le (control % 256 ∷ control / 256 % 256 ∷ []) ≡ control =
      omega (arith, fits) in
    (
      fields_of word rest,
      control % 256 ∷ control / 256 % 256 ∷ rest,
      log_packet_lem a b rest l',
      packet_init_lem a b rest type,
      l,
      log_packet_lem (control % 256) (control / 256 % 256) rest l'
          ∙ ap some (fields_of-init_control type word _ rest small again),
    )
