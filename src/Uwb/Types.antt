-- ===== src/Uwb/Types.antt =====
-- include/uwb.h: the configuration, the modes and the events of the algorithms.
use tdoa.Base.{ℕ, ◌-◌, ◌^◌, Option, List}

pub record UwbConfig : Type 0 where
  pub mode : ℕ
  pub address : List ℕ
  pub anchor_x_pos_mm : ℕ
  pub anchor_y_pos_mm : ℕ

pub data UwbEvent : Type 0 where
  timeout packet_received packet_sent receive_timeout receive_failed : UwbEvent

-- `uwb_algorithm_t`, the two functions of an algorithm, over its static data. `on_event` gives the
-- milliseconds that the thread may wait.
pub record UwbAlgorithm (Data : Type 0) : Type 0 where
  pub init : Data → UwbConfig → Data
  pub on_event : Data → UwbEvent → Option (ℕ × Data)

-- UWB_TIMEOUT_MAXIMUM
abbrev pub timeout_maximum : ℕ
timeout_maximum = 2 ^ 32 - 1

abbrev pub mode_tag : ℕ
mode_tag = 0

abbrev pub mode_anchor : ℕ
mode_anchor = 1

abbrev pub mode_dummy : ℕ
mode_dummy = 2

abbrev pub mode_max : ℕ
mode_max = 3
