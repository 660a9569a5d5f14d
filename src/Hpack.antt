-- ===== src/Hpack.antt =====
-- tornado_http2/hpack.py: header compression.
mod StaticRows
pub mod Table
pub mod Decoder
pub mod Encoder
pub mod Ends
pub mod RoundsEnd
pub mod Eviction
pub mod Format
pub mod Lookup
pub mod Writing
pub mod RoundTrip
pub mod Reading
pub mod Rounds
pub mod Decoding
mod Tests
