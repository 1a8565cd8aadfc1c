-- ===== src/Wire.antt =====
-- Messages as bytes: src/utils/buffer_io.cpp, the codecs of src/network/inet_utils.cpp, and
-- src/network/messages.cpp with include/network/messages.h.
pub mod Result
pub mod Buffer
pub mod Fields
pub mod Reads
pub mod Message
pub mod Stores
pub mod Layout
pub mod Bodies
pub mod Total
pub mod RoundTrip
mod Tests
