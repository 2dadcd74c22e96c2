-- ===== src/Uwb/Dummy.antt =====
-- src/uwb_dummy.c, whose functions only log, and which has no static data.
use tdoa.Base.{ℕ, some}
use tdoa.Uwb.Types.{UwbConfig, UwbEvent, UwbAlgorithm, timeout_maximum}

-- No static data
abbrev pub Nothing : Type 0
Nothing = Unit

abbrev pub dummy_init : Nothing → UwbConfig → Nothing
dummy_init own config = own

unfoldable pub dummy_on_event : UwbEvent → ℕ
dummy_on_event event = timeout_maximum

abbrev pub uwb_dummy_algorithm : UwbAlgorithm Nothing
uwb_dummy_algorithm = record {
  init = dummy_init;
  on_event = λ own event. some (dummy_on_event event, own);
}
