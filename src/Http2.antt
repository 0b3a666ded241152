-- ===== src/Http2.antt =====
-- luaclib-src/lhttp.c: the parts of HTTP/2 that are plain functions on bytes, the frame builders and
-- the integers of HPACK.
pub mod Varint
pub mod Frame
pub mod Table
pub mod Index
pub mod Huffman
mod Tests
