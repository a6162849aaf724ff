-- ===== src/Util.antt =====
-- src/adf_util.h and adf_util.c: integers in buffers of bytes. The disk is big-endian. A buffer is a
-- list of bytes; each function takes the buffer and the offset that the source adds to its pointer.
-- Buffers have a fixed size in the source and offsets lie inside; a byte past the end reads as 0 and
-- a write there changes nothing, and the theorems ask for offsets inside.
pub mod ByteOrder
use adflib.Prelude.{ℕ, ◌+◌, ◌*◌, ◌/◌, ◌%◌, ◌^◌, bit_and, bit_or, List, get_or, set}

abbrev pub byte : List ℕ → ℕ → ℕ
byte buf i = get_or buf i 0

abbrev pub u16 : ℕ → ℕ
u16 n = n % 2 ^ 16

abbrev pub u32 : ℕ → ℕ
u32 n = n % 2 ^ 32

unfoldable pub swap_uint16 : ℕ → ℕ
swap_uint16 n = u16 (bit_or (n * 2 ^ 8) (n / 2 ^ 8))

unfoldable pub swap_uint32 : ℕ → ℕ
swap_uint32 n =
    bit_or (u32 (swap_uint16 (bit_and n 0xffff) * 2 ^ 16)) (swap_uint16 (u16 (n / 2 ^ 16)))

unfoldable pub swap_uint16_from_ptr : List ℕ → ℕ → ℕ
swap_uint16_from_ptr buf p = u16 (bit_or (byte buf p * 2 ^ 8) (byte buf (p + 1)))

unfoldable pub swap_uint32_from_ptr : List ℕ → ℕ → ℕ
swap_uint32_from_ptr buf p =
    u32 (bit_or (swap_uint16_from_ptr buf p * 2 ^ 16) (swap_uint16_from_ptr buf (p + 2)))

unfoldable pub swap_uint32_to_ptr : List ℕ → ℕ → ℕ → List ℕ
swap_uint32_to_ptr buf p val =
    let buf = set buf p (bit_and val 0xff00_0000 / 2 ^ 24 % 2 ^ 8) in
    let buf = set buf (p + 1) (bit_and val 0x00ff_0000 / 2 ^ 16 % 2 ^ 8) in
    let buf = set buf (p + 2) (bit_and val 0x0000_ff00 / 2 ^ 8 % 2 ^ 8) in
    set buf (p + 3) (bit_and val 0x0000_00ff % 2 ^ 8)

unfoldable pub swap_uint16_to_ptr : List ℕ → ℕ → ℕ → List ℕ
swap_uint16_to_ptr buf p val =
    let buf = set buf p (bit_and val 0xff00 / 2 ^ 8 % 2 ^ 8) in set buf (p + 1) (bit_and val 0x00ff)

unfoldable pub swap_uint32_at_ptr : List ℕ → ℕ → List ℕ
swap_uint32_at_ptr buf p =
    let tmp = byte buf p in
    let buf1 = set buf p (byte buf (p + 3)) in
    let buf2 = set buf1 (p + 3) tmp in
    let tmp2 = byte buf2 (p + 1) in
    let buf3 = set buf2 (p + 1) (byte buf2 (p + 2)) in set buf3 (p + 2) tmp2

unfoldable pub swap_uint16_at_ptr : List ℕ → ℕ → List ℕ
swap_uint16_at_ptr buf p =
    let tmp = byte buf p in let buf1 = set buf p (byte buf (p + 1)) in set buf1 (p + 1) tmp

-- A `uint32_t` member of a struct on a little-endian host, `LITT_ENDIAN`: its bytes at the member's
-- offset, lowest first. These two are the host's loads and stores, and no function of the source.
unfoldable pub load32 : List ℕ → ℕ → ℕ
load32 buf p =
    byte buf p + 2 ^ 8 * byte buf (p + 1) + 2 ^ 16 * byte buf (p + 2) + 2 ^ 24 * byte buf (p + 3)

unfoldable pub store32 : List ℕ → ℕ → ℕ → List ℕ
store32 buf p val =
    let buf = set buf p (val % 2 ^ 8) in
    let buf = set buf (p + 1) (val / 2 ^ 8 % 2 ^ 8) in
    let buf = set buf (p + 2) (val / 2 ^ 16 % 2 ^ 8) in set buf (p + 3) (val / 2 ^ 24 % 2 ^ 8)
