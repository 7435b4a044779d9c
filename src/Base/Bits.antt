-- ===== src/Base/Bits.antt =====
-- Bit operations at every width, from one equation for the lowest binary digit.
mod Step
mod Laws
mod Check
pub use Step.*
pub use Laws.*
unfoldable pub use Check.{passes}
pub use Check.{passes_at}
