-- ===== src/Uwb/Mac/Layout.antt =====
-- The frame control word after MAC80215_PACKET_INIT.
use tdoa.Base.{ℕ, ◌^◌, ◌<◌, ◌≡◌, arith}
use tdoa.Uwb.Mac.{PacketType, type_code, get_bits, set_bits, init_control}

type_code-lt : (type : PacketType) → type_code type < 4
unfolding type_code
type_code-lt type = ground arith

-- The macro sets every field that it names, keeps the three reserved bits, and stays in 16 bits.
pub init_control_lem :
    (type : PacketType) (word : ℕ)
    → word < 2 ^ 16
    → let control = init_control type word in
      (get_bits control 0 3 ≡ type_code type)
      × (get_bits control 3 1 ≡ 0)
      × (get_bits control 4 1 ≡ 0)
      × (get_bits control 5 1 ≡ 0)
      × (get_bits control 6 1 ≡ 1)
      × (get_bits control 7 3 ≡ get_bits word 7 3)
      × (get_bits control 10 2 ≡ 3)
      × (get_bits control 12 2 ≡ 1)
      × (get_bits control 14 2 ≡ 3)
      × (control < 2 ^ 16)
unfolding init_control get_bits set_bits
init_control_lem type word h = omega (arith, type_code-lt type)
