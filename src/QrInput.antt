-- ===== src/QrInput.antt =====
-- qrinput.c: the input of the encoder, its data, its size in bits and its bit stream.
pub mod Entry
pub mod Encode
pub mod Payload
pub mod Estimate
pub mod Segment
pub mod Reader
pub mod ReadText
pub mod ReadKanji
pub mod RoundTrip
pub mod Edit
pub mod Append
pub mod Reach
pub mod Struct
pub mod Stream
pub mod Padding
pub mod Version
pub mod Convert
pub mod Bytes
pub mod Cut
pub mod Parts
pub mod Fnc1
mod Tests
