-- ===== src/Lib.antt =====
-- tornado_http2: an HTTP/2 client and server for Tornado. This library models the protocol core of the
-- package and proves it: the bit-level coding, HPACK header compression, frames and their padding, flow
-- control, streams, the loop of a connection, and the upgrade from HTTP/1.
--
-- The parts, and the file of this library that models each:
--   Constants   tornado_http2/constants.py: frame types, settings, error codes, flags, phases.
--   Errors      tornado_http2/errors.py, and exceptions as the values of a result type.
--   Struct      the calls of Python's `struct` that the code makes.
--   Encoding    tornado_http2/encoding.py: `BitEncoder` and `BitDecoder` (the prefixed integers of
--               HPACK, strings, and the Huffman code, whose table is hpack_huffman_data.txt).
--   Hpack       tornado_http2/hpack.py: the static table (hpack_static_table.txt), the dynamic table,
--               `HpackDecoder` and `HpackEncoder`.
--   Frames      tornado_http2/frames.py: `Frame` and its padding.
--   FlowControl tornado_http2/flow_control.py: `Window`, and the interleavings of `consume`.
--   Connection  tornado_http2/connection.py: frames on the wire, settings, the frames of stream 0, and the
--               loop (Connection/Loop) that gives frames to the connection and to its streams.
--   Stream      tornado_http2/stream.py: the receiving side (Stream, Stream/Headers, Stream/Blocks) and the
--               sending side (Stream/Send).
--   Server      tornado_http2/server.py: the choice of a protocol, and the upgrade of a request.
--   Client      tornado_http2/client.py: the choice of a protocol, and a request's stream.
--
-- How the parts interact. A connection reads frames off the wire (Connection/Wire) and handles those of
-- stream 0 itself (Connection/Handlers): settings go into its dictionary, a WINDOW_UPDATE into its window
-- (FlowControl), and answers out by `_write_frame`. A stream sends at most what its own window and then
-- the connection's window let through (FlowControl/Sharing). Header blocks pass through the two HPACK
-- contexts (Hpack/Decoder, Hpack/Encoder), each with a dynamic table (Hpack/Table), over the bit coders
-- (Encoding). A stream hands the content of DATA frames to its delegate, whose calls are kept in order,
-- and gives the bytes back by WINDOW_UPDATE frames on the connection that it shares.
--
-- How the code is written here. A class is a record of its fields; a method takes the state and returns
-- the state it leaves with its result, also where it raises, because what was changed before an
-- exception stays changed. Python integers are naturals, unbounded as in Python; fields of fixed width
-- are bounded where `struct` bounds them. A coroutine's run between two waits is one function, and
-- FlowControl/Sharing takes these runs as steps in any order. Tornado's `IOStream` is a parameter:
-- `read_bytes` is a function of the whole input, of which a theorem assumes at most that where enough
-- bytes have come it gives exactly those, or that the bytes it gives are taken off the input; `write` is
-- any function of the calls so far. A delegate's `data_received` either returns at once or leaves the
-- window update to a later event.
--
-- Loops. `write_hpack_int` recurses on the fall of its argument. Loops that read take rounds: the length
-- of the data and one more, since each round reads a byte; the Huffman loop has a round for each bit and
-- one more. `gc_loop` has a round for each entry. The settings loop recurses on the payload.
-- `serve_loop` has a round for each frame; a frame takes nine bytes at least, so that one round more than
-- the input has bytes is enough (Connection/LoopEnds). The digits of a number are fewer than itself and two.
--
-- The sending side of a stream. `tasks` are the coroutines of `write` and `finish` that hold or wait for
-- `write_lock`, the holder first; a turn of the holder is a step with the allowance that `window.consume`
-- gives it (FlowControl), and the application's calls come between the turns in any order.
--
-- What is outside. Stream/Outside collects what stream.py uses of Tornado and of the application: texts,
-- `HTTPHeaders`, the table of reasons. `int` and `str` are written out for ASCII texts. The delegate's
-- methods return, and what an application does in them comes as separate calls behind.
--
-- An upgrade. `switch_protocols` waits while the new connection works; `follow` (Server/Upgrading) gives the
-- stream and the connection as they stand when it goes on, `hand_back` what is done of them since. Stream 1
-- has no delegate there.
--
-- Not modelled: Tornado's HTTP/1 server and clients, which server.py and client.py subclass; curl.py,
-- which sets one option of pycurl; the gzip wrapper of a delegate; logging; timers; the callbacks of
-- `write`; the TLS handshake and the server's set of connections; `Window.close` among the steps of
-- FlowControl/Sharing, since nothing calls it; and the notification of waiting coroutines, since a
-- step may run a coroutine whenever its condition lets it go on.
pub mod Common
pub mod Constants
pub mod Errors
pub mod Encoding
pub mod Hpack
pub mod Struct
pub mod Frames
pub mod FlowControl
pub mod Connection
pub mod Stream
pub mod Server
pub mod Client
