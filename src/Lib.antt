-- ===== src/Lib.antt =====
-- A model of the core of omnidesk24, a remote desktop: the entropy coder and transforms of its own
-- codec, the signaling server with the framing under it, and the small components between them.
--
-- The program's parts. A host captures the screen, merges the dirty rectangles (diff), transforms,
-- predicts and entropy-codes tiles (codec/omni) and hands frames over a ring buffer (core). A
-- viewer's reports steer the bitrate (codec/rate_control). Both find each other through the
-- signaling server, to which they speak JSON in framed TCP messages (signaling).
--
-- The files. Names are the source's, in the spelling of this language: buildFrequencyTable is
-- build_frequency_table.
--   Prelude: names shared by all files, lists and integers over the machine's numbers, tests.
--   Bytes: big-endian reads and writes of src/core/types.h.
--   Text: what the program uses of std::string.
--   Rans: src/codec/omni/rans_codec.cpp. Rans.Freq and Rans.Table hold the tables, Rans the coder;
--     Step, Slots, Loops, Adjust, Support, Quads, Normal, Codec and Histogram are its theory.
--   Json: jsonGetString and jsonMakeObject of src/signaling/signaling_server.cpp.
--   Signaling: the rest of that file. Registry is the state, Handlers the messages, Signaling
--     itself the loop; Keys is the theory of the registry as a map, and Relay, Invariant, Presence
--     and Sessions that of the server.
--   SignalingClient: src/signaling/signaling_client.cpp. Escape is the text helpers, State the calls
--     and the messages received, Ports connecting, Loop the receiving thread; Delivery and Reconnect
--     are its theory.
--   ScrollDetector: src/codec/omni/scroll_detector.cpp; Search is its theory.
--   OmniEncoder: the choices of src/codec/omni/omni_encoder.cpp.
--   AdaptiveQuality: src/codec/adaptive_quality.cpp.
--   Wire: the headers of src/signaling/wire_format.h, src/core/types.h and
--     src/codec/omni/omni_types.h.
--   TcpChannel: send and recv of src/signaling/tcp_channel.cpp.
--   RingBuffer: src/core/ring_buffer.h.
--   RateControl: src/codec/rate_control.cpp.
--   Rects: Rect of src/core/types.h and src/diff/rect_merger.cpp.
--   Color: the scalar transform of src/core/simd_ycocg.cpp.
--   Predict: left-pixel prediction of src/core/simd_predict.cpp.
--   Tile: src/codec/omni/tile_encoder.cpp and src/codec/omni/tile_decoder.cpp, and in Tile.Modes the
--     other predictors. Samples and Symbols are the values of a plane and the bytes that stand for
--     them, Select the choice of a mode, Counts and Residuals the coding of the symbols, Coder the
--     calls for a whole tile; Shape, Undo, Rebuilt, Streams, Coded, Planes, Choice, Header, Lossless,
--     Error, NearBytes and NearLossless are their theory.
--   Bitstream: src/codec/omni/bitstream.cpp.
--   Quality: src/codec/quality_tuner.cpp.
--   UserId: src/signaling/user_id.cpp.
-- A module named Examples holds runs at concrete inputs.
--
-- State. An object's state is a record that its operations take and return. A lock or an atomic
-- makes one step of an operation; threads are not modelled otherwise. A channel is a number, and
-- closing it enters it in a list, so what two parts know of one channel agrees. The clock, the
-- random numbers, the file system, the socket and the arithmetic of floats are parameters. An
-- exception that leaves a handler, and a read outside a buffer, are values of their own.
--
-- Bounds and fuel. Words are natural numbers with their wrap-around written out; coordinates of
-- rectangles are integers. The loop of the encoder runs at most four times, since a 32-bit state is
-- then zero. The loops that adjust a frequency table and those that merge rectangles run on fuel
-- that is shown to be enough.
--
-- Not modelled: threads, sockets and memory order; OpenGL, windows, capture, system codecs, WebRTC
-- and the database, which are calls of other libraries; the vector routines; and, so far, lossy tiles,
-- the layout of frames, the classifier and the sessions.
pub mod Prelude
pub mod Bytes
pub mod Text
pub mod Tile
pub mod Json
pub mod ScrollDetector
pub mod OmniEncoder
pub mod Signaling
pub mod Wire
pub mod RingBuffer
pub mod TcpChannel
pub mod RateControl
pub mod Rects
pub mod Color
pub mod UserId
pub mod Predict
pub mod Quality
pub mod AdaptiveQuality
pub mod Bitstream
pub mod Rans
pub mod SignalingClient
