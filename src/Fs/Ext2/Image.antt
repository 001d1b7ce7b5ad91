-- ===== src/Fs/Ext2/Image.antt =====
-- A small image to run the ext2 driver on: 1 KiB blocks, one group of 24 blocks, 16 inodes of 128
-- bytes. Block 1 is the superblock, 2 the descriptors, 3 and 4 the bitmaps, 5 and 6 the inode table,
-- and 7 the root directory.
use pythonos.Prelude.{ℕ, ◌-◌, [], ◌∷◌, ◌++◌, length, take, drop, replicate, zero, suc}
use pythonos.Prelude.Bytes.{Bytes}
use pythonos.Fs.Ext2.Fields.{le_bytes}
use pythonos.Fs.Ext2.Device.{Sectors}

abbrev le16 : ℕ → Bytes
unfolding le_bytes
le16 = le_bytes 2

abbrev le32 : ℕ → Bytes
unfolding le_bytes
le32 = le_bytes 4

abbrev padded : ℕ → Bytes → Bytes
padded n xs = xs ++ replicate (n - length xs) 0

abbrev super_block : Bytes
unfolding le_bytes
super_block = padded 1024 (
    le32 16
    ++ (le32 25
        ++ (le32 0
            ++ (le32 17
                ++ (le32 5
                    ++ (le32 1
                        ++ (le32 0
                            ++ (le32 0
                                ++ (le32 24
                                    ++ (le32 24
                                        ++ (le32 16
                                            ++ (replicate 12 0
                                                ++ (le16 0xEF53
                                                    ++ (replicate 18 0
                                                        ++ (le32 1
                                                            ++ (replicate 4 0
                                                            ++ (le32 11
                                                            ++ (le16 128))))))))))))))))))

abbrev table : Bytes
unfolding le_bytes
table = padded 1024 (le32 3 ++ (le32 4 ++ (le32 5 ++ (le16 17 ++ (le16 5 ++ (le16 1))))))

abbrev block_bitmap : Bytes
block_bitmap = padded 1024 (0x7F ∷ [])

abbrev inode_bitmap : Bytes
inode_bitmap = padded 1024 (0xFF ∷ 0x07 ∷ [])

abbrev root_inode : Bytes
unfolding le_bytes
root_inode = padded 128 (
    le16 0x41ED
    ++ (le16 0
        ++ (le32 1024 ++ (replicate 18 0 ++ (le16 2 ++ (le32 2 ++ (replicate 8 0 ++ (le32 7))))))))

abbrev inode_table : Bytes
unfolding le_bytes
inode_table = padded 2048 (replicate 128 0 ++ root_inode)

abbrev root_dir : Bytes
unfolding le_bytes
root_dir = padded 1024 (
    le32 2
    ++ (le16 12
        ++ (1 ∷ 2 ∷ b'.' ∷ 0 ∷ 0 ∷ 0 ∷ []
            ++ (le32 2 ++ (le16 1012 ++ (2 ∷ 2 ∷ b'.' ∷ b'.' ∷ []))))))

abbrev sectors_of : ℕ → Bytes → Sectors
sectors_of zero b = []
sectors_of (suc n) b = take 512 b ∷ sectors_of n (drop 512 b)

unfoldable pub image : Sectors
unfolding le_bytes
image = sectors_of 50 (
    replicate 1024 0
    ++ (super_block
        ++ (table
            ++ (block_bitmap
                ++ (inode_bitmap ++ (inode_table ++ (root_dir ++ replicate 17408 0)))))))
