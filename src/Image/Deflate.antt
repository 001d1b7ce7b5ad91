-- ===== src/Image/Deflate.antt =====
-- kernel/gui/image/_deflate.py: inflate. Children: the bit reader, Huffman codes, the code lengths,
-- the driver, and the proofs.
pub mod Bits
pub mod Huffman
pub mod Lengths
pub mod Inflate
pub mod Reads
pub mod Total
pub mod Copies
pub mod Stored
