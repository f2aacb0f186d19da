-- ===== src/Ikvm/Decoder.antt =====
-- internal/ikvm/bitstream.go, decoder.go, decompress.go and tables.go: the decoder of the board's video.
pub mod Reader
pub mod BitString
pub mod Shifts
pub mod Reads
pub mod Coded
pub mod Standard
pub mod Quality
pub mod Loops
pub mod Tables
pub mod State
pub mod Quantization
pub mod Huffman
pub mod Idct
pub mod Colors
pub mod Blocks
pub mod Frame
pub mod Lengths
pub mod Progress
pub mod Parsing
pub mod Shape
pub mod Showing
pub mod Ends
pub mod Restored
pub mod Drawing
pub mod Undone
pub mod TakenBack
pub mod Clamped
mod Tests
