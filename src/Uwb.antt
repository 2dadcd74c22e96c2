-- ===== src/Uwb.antt =====
-- The ultra-wideband part: src/uwb.c, src/uwb_anchor.c, src/uwb_tag.c, src/uwb_dummy.c,
-- src/uwb_utils.c and include/mac.h.
pub mod Utils
pub mod Mac
pub mod Types
pub mod Device
pub mod Radio
pub mod Anchor
pub mod Tag
pub mod Core
pub mod Dummy
pub mod Loop
pub mod Thread
