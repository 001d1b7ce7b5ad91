-- ===== src/Image/Png.antt =====
-- kernel/gui/image/png.py: the PNG decoder. Children: chunks, row filters, the decoder, and the proofs.
pub mod Chunks
pub mod Filters
pub mod Decode
pub mod Refilter
pub mod Reread
pub mod Whole
