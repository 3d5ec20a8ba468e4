-- ===== src/Tile.antt =====
-- One tile of a frame, coded on its own: src/codec/omni/tile_encoder.cpp and
-- src/codec/omni/tile_decoder.cpp. A plane is the list of its tileW * tileH values, row by row, each
-- the 16 bits of an int16_t; a BitstreamWriter or BitstreamReader is passed on from call to call.
pub mod Samples
pub mod Modes
pub mod Select
pub mod Shape
pub mod Undo
pub mod Symbols
pub mod Counts
pub mod Residuals
pub mod Rebuilt
pub mod Streams
pub mod Coded
pub mod Coder
pub mod Planes
pub mod Choice
pub mod Header
pub mod Lossless
pub mod Error
pub mod NearBytes
pub mod NearLossless
mod Examples
