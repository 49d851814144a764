-- ===== src/Memory/Bitmap/Laws.antt =====
-- A bit that is set or cleared reads back, and every other bit stays as it is.
use rpi4_bare_metal_os.Prelude.{
  ℕ, ◌-◌, ◌/◌, ◌%◌, ◌^◌, ◌<◌, ◌≡◌, refl, Bool, true, false, ◌&&◌, bit_and, bit_or, arith, ltb, ◌==◌,
  if◌then◌else◌, check_range, check_range_at,
}
use rpi4_bare_metal_os.Memory.Bitmap.{Bitmap, managed_pages, bitmap_set, bitmap_clear, bitmap_test}

-- every byte of the region is a byte
abbrev pub IsBytes : Bitmap → Type 0
IsBytes bm = (i : ℕ) → bm i < 256

abbrev bit : ℕ → ℕ → ℕ
bit b k = bit_and (b / 2 ^ k) 1

-- The two laws of a byte at bits `k` and `j`, and its range, as one test.
abbrev byte_laws : ℕ → ℕ → ℕ → Bool
byte_laws b k j =
    (bit (bit_or b (2 ^ k)) j == (if k == j then 1 else bit b j))
    && (bit (bit_and b (255 - 2 ^ k)) j == (if k == j then 0 else bit b j))
    && ltb (bit_or b (2 ^ k)) 256
    && ltb (bit_and b (255 - 2 ^ k)) 256

byte_table : check_range 256 0 (λ b. check_range 8 0 (λ k. check_range 8 0 (byte_laws b k))) ≡ true
unfolding check_range
byte_table = refl

module _ (b k j : ℕ) (byte : b < 256) (lt : k < 8) (lt' : j < 8) where
  byte_lem : byte_laws b k j ≡ true
  byte_lem =
      check_range_at 8 0 (byte_laws b k)
        (check_range_at 8 0 (λ k. check_range 8 0 (byte_laws b k))
          (check_range_at 256 0 (λ b. check_range 8 0 (λ k. check_range 8 0 (byte_laws b k)))
            byte_table b (omega arith) byte)
          k (omega arith) lt)
        j (omega arith) lt'

  byte_facts :
      (bit (bit_or b (2 ^ k)) j ≡ (if k == j then 1 else bit b j))
      × (bit (bit_and b (255 - 2 ^ k)) j ≡ (if k == j then 0 else bit b j))
      × (bit_or b (2 ^ k) < 256)
      × (bit_and b (255 - 2 ^ k) < 256)
  byte_facts = ground (arith, byte_lem)

module _ {bm : Bitmap} (bytes : IsBytes bm) (page : ℕ) where
  pub bitmap_set-IsBytes : IsBytes (bitmap_set bm page)
  unfolding bitmap_set
  bitmap_set-IsBytes i =
      ground (arith, bytes i, bytes (page / 8), byte_facts (bm (page / 8)) (page % 8) 0)

  pub bitmap_clear-IsBytes : IsBytes (bitmap_clear bm page)
  unfolding bitmap_clear
  bitmap_clear-IsBytes i =
      ground (arith, bytes i, bytes (page / 8), byte_facts (bm (page / 8)) (page % 8) 0)

  -- Where every byte is a byte, setting a managed page's bit changes the answer for that page alone.
  pub test-set :
      page < managed_pages
      → (p : ℕ)
      → bitmap_test (bitmap_set bm page) p ≡ (if page == p then true else bitmap_test bm p)
  unfolding bitmap_set bitmap_test
  test-set lt p = ground (arith, bytes (page / 8), byte_facts (bm (page / 8)) (page % 8) (p % 8))

  -- Where every byte is a byte, clearing a managed page's bit changes the answer for that page alone.
  pub test-clear :
      page < managed_pages
      → (p : ℕ)
      → bitmap_test (bitmap_clear bm page) p ≡ (if page == p then false else bitmap_test bm p)
  unfolding bitmap_clear bitmap_test
  test-clear lt p = ground (arith, bytes (page / 8), byte_facts (bm (page / 8)) (page % 8) (p % 8))
