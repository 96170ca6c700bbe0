-- ===== src/Util.antt =====
-- src/Util.h and src/Util.cpp: the arithmetic helpers.
mod PopCount
mod Align
pub mod Fraction
unfoldable pub use PopCount.*
unfoldable pub use Align.*
