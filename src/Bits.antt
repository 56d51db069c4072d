-- ===== src/Bits.antt =====
-- Laws of the binary operations `&`, `|` and `^` at every width. The native operations go by a
-- recursion on digits with fuel; here it is turned into one equation for the lowest digit.
pub mod Digit
pub mod Fields
pub mod Bounds
pub mod Low
pub use Digit.{digit_xor, bit_or_digit, bit_and_digit, bit_xor_digit}
