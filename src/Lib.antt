-- ===== src/Lib.antt =====
-- ADFlib, a library in C for the disks and disk images of the Amiga: the blocks of a device, the
-- volumes on it, and their filesystem. This development models its code in src/.
--
-- The parts, from the device up:
--   Util      src/adf_util.h, src/adf_util.c: byte order. A buffer is the list of its bytes, a place in it
--             is a number; the host is little-endian (`LITT_ENDIAN`).
--   Date      src/adf_util.c: the Amiga's dates (adfDays2Date, adfTime2AmigaTime).
--   Raw       src/adf_raw.c: adfSwapEndian, which turns a block on the disk into a structure in memory and
--             back, and the checksums.
--   Err       src/adf_err.h: return codes, and results with an output.
--   Dev       src/adf_dev.c and src/adf_dev_driver_ramdisk.c: blocks of a device in memory. Dev.Media
--             (src/adf_dev_type.c) has the known types of devices, Dev.HdBlocks (src/adf_dev_hd.c) the blocks
--             that describe a hard disk, Dev.Hd the mounting of floppy disks, hard files and hard disks
--             (src/adf_dev_flop.c, src/adf_dev_hdfile.c, src/adf_dev_hd.c), Dev.HdCreate their making, and
--             Dev.Opening what is found out when a device is opened.
--   Vol       src/adf_vol.h, src/adf_vol.c, src/adf_blk.h: volumes, whose block 0 is `first_block` of the
--             device (adfVolReadBlock, adfVolWriteBlock, adfVolRemount); mounting, the check before a mount
--             for writing, and making a volume (Vol.Mount).
--   Block     The readers and writers of whole blocks: adfReadRootBlock, adfWriteRootBlock (src/adf_raw.c),
--             entries (src/adf_dir.c), file headers, extensions and data (src/adf_file_block.c), bitmap
--             (src/adf_bitm.c), directory cache (src/adf_cache.c). All use Raw for order and sum and Vol
--             for the blocks. A structure is its 512 bytes in memory; a member is at its C offset. Block.Boot
--             has the boot block, 1024 bytes.
--   Bitmap    src/adf_bitm.c: free and used blocks, allocation (adfGetFreeBlocks), counting, and the
--             bitmap's pages on the disk (Bitmap.Disk), and its reconstruction (Bitmap.Rebuild).
--   File      src/adf_file_util.h, src/adf_file_util.c: where the bytes of a file lie; src/adf_file.h and
--             src/adf_file.c, open files: reading (File.Handle), flushing (File.Flush), seeking (File.Seek),
--             writing (File.Write), truncating (File.Truncate), opening and closing (File.Open);
--             src/adf_file_block.c: the blocks of a file (File.Blocks). `AdfFile` is `struct AdfFile`
--             with the state of its volume in it; a function takes it and gives it back. File.Content
--             says what a file is to its readers: the blocks that it has on the volume, its bytes by
--             position, and when an open file is well placed, which is when the buffer, the extension
--             block and the positions agree.
--   Dir       src/adf_dir.c: names, hash values, and the search of an entry (adfNameToEntryBlk); new entries,
--             files and directories (Dir.Create), the removal of entries (Dir.Remove), their names, access
--             bits and comments (Dir.Rename), `struct AdfEntry` and the current directory (Dir.Entries), the
--             lists of entries (Dir.Tree), and the check of a directory (Dir.Check), whose errors Dir.Errors
--             counts without a bound. Dir.Sound says what a whole directory is.
--   Cache     src/adf_cache.c: the records of a directory cache block, and the chain of the blocks of a
--             directory, with records deleted, added and updated (Cache.Chain) and listed (Cache.Listing).
--   Salvage   src/adf_salv.c: deleted entries and their recovery.
--   Prelude   Shared helpers: tests, lists, bits of words, finite checks.
--   Tests     The theorems at concrete inputs.
--
-- A function of the source that changes a volume takes it and gives it back, with its return code. The
-- names are the source's, without the prefix adf: `vol_read_block` is adfVolReadBlock. Where the code
-- may stop the program, by an assertion, an access outside a table or a loop without end, the model
-- gives `none`.
--
-- Numbers are natural numbers, with `% 2 ^ 32` where the code's `uint32_t` may wrap around. A signed
-- member of a block is its 32 bits. Recursion is structural; on fuel are the loops of adfDays2Date
-- (days + 1 years and 12 months, shown to be enough), adfGetFreeBlocks (the number of the last block and
-- one more, shown to be enough), the chain of a hash value (any fuel above its length, shown to be
-- enough), the chain of the bitmap extension blocks in adfReadBitmap and adfReconstructBitmap, the chains of adfMountHd, the records of a directory cache
-- block (20, shown to be enough) and the chain of these blocks, and the loops of files: reading, writing
-- and seeking have fuel for a byte a turn (for reading shown to be enough), adfFileSeek and
-- adfFileSeekEOF_ call each other to a depth of 2 (shown to be enough where the blocks can be read), and
-- the room of a vector bounds the loops that fill it.
--
-- The ramdisk computes the offset of a block in 32 bits: the theorems on blocks are for devices of at most
-- 4 GiB.
--
-- Parameters: `toupper` of the C library, the time of adfGiveCurrentTime, and what the memory holds that
-- malloc gives. Allocation of memory is taken to succeed. Warnings and messages leave no trace.
--
-- Not modelled: the drivers on files of the operating system, the lists and vectors of src/adf_str.c and
-- src/adf_vector.c, the command line tools, and the texts of adfDevGetInfo, adfVolGetInfo and
-- adfEntryGetInfo.
pub mod Prelude
pub mod Util
pub mod Date
pub mod Raw
pub mod Err
pub mod Dev
pub mod Vol
pub mod Block
pub mod Bitmap
pub mod File
pub mod Dir
pub mod Cache
pub mod Salvage
pub mod Tests
