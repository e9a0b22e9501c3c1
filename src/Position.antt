-- ===== src/Position.antt =====
-- util/Converters.cpp and the UTF-8 part of util/Formatting.cpp: columns in UTF-16 code units.
pub mod Utf8
pub mod Columns
pub mod Sequence
pub mod Boundary
pub mod Offsets
pub mod RoundTrip
pub mod Decoder
mod Examples
