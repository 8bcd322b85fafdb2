-- ===== src/Util.antt =====
-- assets/js/util.js, its functions without the DOM.
pub mod Modes
pub mod Color
pub mod Visible
mod Tests
