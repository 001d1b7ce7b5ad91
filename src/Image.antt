-- ===== src/Image.antt =====
-- kernel/gui/image: the decompressor and the PNG decoder.
pub mod Deflate
pub mod Png
mod Tests
