-- ===== src/Memory/Bitmap.antt =====
-- The page bitmap of src/drivers/memory.c: one bit for each managed page, in bytes.
pub mod Laws
use rpi4_bare_metal_os.Prelude.{
  ℕ, ◌+◌, ◌-◌, ◌*◌, ◌/◌, ◌%◌, ◌^◌, Bool, true, bit_and, bit_or, ltb, ◌==◌, if◌then◌else◌, update,
}

-- `MANAGED_SIZE / PAGE_SIZE`
abbrev pub managed_pages : ℕ
managed_pages = 16384

-- The bytes from `BITMAP_ADDR` on, by offset.
abbrev pub Bitmap : Type 0
Bitmap = ℕ → ℕ

-- `page_bitmap[local / 8] |= (1 << (local % 8))`, inside the managed range only
unfoldable pub bitmap_set : Bitmap → ℕ → Bitmap
bitmap_set bm page =
    if ltb page managed_pages
    then update bm (page / 8) (bit_or (bm (page / 8)) (2 ^ (page % 8)))
    else bm

-- `page_bitmap[local / 8] &= ~(1 << (local % 8))`: of the complement a byte keeps the low 8 bits.
unfoldable pub bitmap_clear : Bitmap → ℕ → Bitmap
bitmap_clear bm page =
    if ltb page managed_pages
    then update bm (page / 8) (bit_and (bm (page / 8)) (255 - 2 ^ (page % 8)))
    else bm

-- A page outside the managed range counts as used.
unfoldable pub bitmap_test : Bitmap → ℕ → Bool
bitmap_test bm page =
    if ltb page managed_pages then bit_and (bm (page / 8) / 2 ^ (page % 8)) 1 == 1 else true
