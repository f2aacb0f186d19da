-- ===== src/Ikvm.antt =====
-- internal/ikvm: the protocol (IVTP) between the switcher and a MegaRAC board, and the translation of a
-- viewer's input (VNC) into it. A byte is a natural number below 256, a message a list of bytes.
pub mod Bytes
pub mod Protocol
pub mod VideoHeader
pub mod Client
pub mod Stream
pub mod Fragments
pub mod Hid
pub mod Input
pub mod Frames
pub mod Decoder
pub mod Bridge
mod Tests
