-- ===== src/Connection.antt =====
-- tornado_http2/connection.py: the frames on the wire, the settings and the frames of stream 0.
pub mod Wire
pub mod WireRoundTrip
pub mod Handlers
pub mod SettingsBounds
pub mod Replies
pub mod Raises
pub mod Input
pub mod Loop
pub mod LoopEnds
pub mod LoopNumbers
pub mod LoopErrors
pub mod LoopFrames
mod LoopTests
mod Tests
