-- ===== src/Bitmap.antt =====
-- The free maps of kernel/memory/pmm.c and fs/qfs.c: an array of bytes, one bit for each page,
-- block or inode, read and written as `map[i / 8]` at the mask `1 << (i % 8)`.
-- A read outside the array yields 0 and a write outside changes nothing.
pub mod Bytes
pub mod Laws
pub mod Range
use base_kernel.Base.{
  ℕ, zero, suc, ◌+◌, ◌-◌, ◌/◌, ◌%◌, ◌^◌, Bool, not, List, bit_and, bit_or, ◌==◌, get_or, set,
}

abbrev pub Bitmap : Type 0
Bitmap = List ℕ

-- `map[i / 8] & (1 << (i % 8))`, as a test.
unfoldable pub get_bit : Bitmap → ℕ → Bool
get_bit bm i = not (bit_and (get_or bm (i / 8) 0) (2 ^ (i % 8)) == 0)

-- `map[i / 8] |= (1 << (i % 8))`
unfoldable pub set_bit : Bitmap → ℕ → Bitmap
set_bit bm i = set bm (i / 8) (bit_or (get_or bm (i / 8) 0) (2 ^ (i % 8)))

-- `map[i / 8] &= ~(1 << (i % 8))`
unfoldable pub clear_bit : Bitmap → ℕ → Bitmap
clear_bit bm i = set bm (i / 8) (bit_and (get_or bm (i / 8) 0) (255 - 2 ^ (i % 8)))

-- `for (j = 0; j < n; j++) set bit s + j`
unfoldable pub set_range : ℕ → ℕ → Bitmap → Bitmap
set_range s zero bm = bm
set_range s (suc n) bm = set_range (s + 1) n (set_bit bm s)

-- `for (j = 0; j < n; j++) clear bit s + j`
unfoldable pub clear_range : ℕ → ℕ → Bitmap → Bitmap
clear_range s zero bm = bm
clear_range s (suc n) bm = clear_range (s + 1) n (clear_bit bm s)
