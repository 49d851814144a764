-- ===== src/Memory/Pages/Count.antt =====
-- What the loops of `page_alloc_n` and `page_free_n` do to the bitmap and to the count of used pages.
use rpi4_bare_metal_os.Prelude.{
  ℕ, zero, suc, ◌+◌, ◌≤◌, ◌<◌, ◌≡◌, refl, ◌∙◌, Bool, true, false, ◌&&◌, arith, inl, inr, Bool-cases,
  leb, ltb, ◌==◌, if◌then◌else◌, count, count-le, count-change,
}
use rpi4_bare_metal_os.Memory.Bitmap.{Bitmap, managed_pages, bitmap_test, bitmap_set, bitmap_clear}
use rpi4_bare_metal_os.Memory.Bitmap.Laws.{
  IsBytes, bitmap_set-IsBytes, bitmap_clear-IsBytes, test-set, test-clear,
}
use rpi4_bare_metal_os.Memory.Pages.{PageState, mark, mark_all, release, release_all}
use rpi4_bare_metal_os.Memory.Pages.Search.{IsFree}

-- how many managed pages the bitmap calls used
unfoldable pub used_in_bitmap : Bitmap → ℕ
used_in_bitmap bm = count managed_pages (bitmap_test bm)

-- `used_pages` is the number of used pages in the bitmap.
pub record IsCounted (s : PageState) : Type 0 where
  pub bytes : IsBytes s.bitmap
  pub counted : s.used_pages ≡ used_in_bitmap s.bitmap

-- `p` is one of the `n` pages from `page` on
abbrev pub inside : (page n p : ℕ) → Bool
inside page n p = leb page p && ltb p (page + n)

pub used-le : (bm : Bitmap) → used_in_bitmap bm ≤ managed_pages
unfolding used_in_bitmap
used-le bm = count-le managed_pages (bitmap_test bm)

module _ {s : PageState} (inv : IsCounted s) (page : ℕ) (lt : page < managed_pages) where
  used-set :
      bitmap_test s.bitmap page ≡ false
      → used_in_bitmap (bitmap_set s.bitmap page) ≡ used_in_bitmap s.bitmap + 1
  unfolding used_in_bitmap
  used-set free = ground (
    arith,
    test-set inv.bytes page lt page,
    count-change managed_pages (bitmap_test s.bitmap) (bitmap_test (bitmap_set s.bitmap page)) page
        (λ i ne. ground (arith, test-set inv.bytes page lt i)) lt,
  )

  used-clear :
      bitmap_test s.bitmap page ≡ true
      → used_in_bitmap (bitmap_clear s.bitmap page) + 1 ≡ used_in_bitmap s.bitmap
  unfolding used_in_bitmap
  used-clear used = ground (
    arith,
    test-clear inv.bytes page lt page,
    count-change managed_pages (bitmap_test s.bitmap) (bitmap_test (bitmap_clear s.bitmap page))
        page (λ i ne. ground (arith, test-clear inv.bytes page lt i)) lt,
  )

  mark-IsCounted : bitmap_test s.bitmap page ≡ false → IsCounted (mark s page)
  unfolding mark
  mark-IsCounted free = record {
    bytes = bitmap_set-IsBytes inv.bytes page;
    counted = omega (arith, used-set free, inv.counted, used-le (bitmap_set s.bitmap page));
  }

  used_pages-mark : bitmap_test s.bitmap page ≡ false → (mark s page).used_pages ≡ s.used_pages + 1
  unfolding mark
  used_pages-mark free =
      omega (arith, used-set free, inv.counted, used-le (bitmap_set s.bitmap page))

  test-mark :
      (p : ℕ)
      → bitmap_test (mark s page).bitmap p ≡ (if page == p then true else bitmap_test s.bitmap p)
  unfolding mark
  test-mark p = test-set inv.bytes page lt p

  test-release :
      (p : ℕ)
      → bitmap_test (release s page).bitmap p
        ≡ (if page == p then false else bitmap_test s.bitmap p)
  unfolding release
  test-release p = ground (arith, test-clear inv.bytes page lt p)

  first-release : (release s page).first_free_page ≡ s.first_free_page
  unfolding release
  first-release = ground arith

  release-IsCounted : IsCounted (release s page)
  unfolding release
  release-IsCounted = elim (Bool-cases (bitmap_test s.bitmap page)) [
    | inr free ↦ rw free inv
    | inl used ↦ rw used (record {
      bytes = bitmap_clear-IsBytes inv.bytes page;
      counted = omega (arith, used-clear used, inv.counted, used-le s.bitmap);
    })
  ]

first-mark : (s : PageState) (page : ℕ) → (mark s page).first_free_page ≡ s.first_free_page
unfolding mark
first-mark s page = refl

-- What is left of the state: the bitmap changes inside the window only.
pub record Window (value : Bool) (n page : ℕ) (s t : PageState) : Type 0 where
  pub inv : IsCounted t
  pub first : t.first_free_page ≡ s.first_free_page
  pub tests :
      (p : ℕ) → bitmap_test t.bitmap p ≡ (if inside page n p then value else bitmap_test s.bitmap p)

module _ {s : PageState} (inv : IsCounted s) (page : ℕ) (lt : page < managed_pages) (n : ℕ) where
  Window-mark :
      {t : PageState} → Window true n (page + 1) (mark s page) t → Window true (suc n) page s t
  Window-mark w = record {
    inv = w.inv;
    first = w.first ∙ first-mark s page;
    tests = λ p. ground (arith, w.tests p, test-mark inv page lt p);
  }

  Window-release :
      {t : PageState} → Window false n (page + 1) (release s page) t → Window false (suc n) page s t
  Window-release w = record {
    inv = w.inv;
    first = w.first ∙ first-release inv page lt;
    tests = λ p. ground (arith, w.tests p, test-release inv page lt p);
  }

-- Marking a free window makes its pages used, leaves the others, and keeps the count right.
pub mark_all-Window :
    (n page : ℕ) {s : PageState}
    → IsCounted s
    → page + n ≤ managed_pages
    → IsFree s.bitmap page n
    → Window true n page s (mark_all n page s)
unfolding mark_all
mark_all-Window zero page inv small free = record {
  inv = inv;
  first = refl;
  tests = λ p. ground arith;
}
mark_all-Window (suc n) page {s} inv small free =
    let lt : page < managed_pages = omega arith in
    Window-mark inv page lt n (
      mark_all-Window n (page + 1)
        (mark-IsCounted inv page lt (free page (omega arith) (omega arith))) (omega arith)
        (λ p lo hi. ground (arith, test-mark inv page lt p, free p (omega arith) (omega arith))))

-- Releasing a window, used or not, makes its pages free, leaves the others, and keeps the count right.
pub release_all-Window :
    (n page : ℕ) {s : PageState}
    → IsCounted s
    → page + n ≤ managed_pages
    → Window false n page s (release_all n page s)
unfolding release_all
release_all-Window zero page inv small = record {
  inv = inv;
  first = refl;
  tests = λ p. ground arith;
}
release_all-Window (suc n) page inv small =
    let lt : page < managed_pages = omega arith in
    Window-release inv page lt n
      (release_all-Window n (page + 1) (release-IsCounted inv page lt) (omega arith))

-- `used_pages` goes up by the size of the window.
pub mark_all-used_pages :
    (n page : ℕ) {s : PageState}
    → IsCounted s
    → page + n ≤ managed_pages
    → IsFree s.bitmap page n
    → (mark_all n page s).used_pages ≡ s.used_pages + n
unfolding mark_all
mark_all-used_pages zero page inv small free = omega arith
mark_all-used_pages (suc n) page {s} inv small free =
    let lt : page < managed_pages = omega arith in
    omega (
      arith,
      used_pages-mark inv page lt (free page (omega arith) (omega arith)),
      mark_all-used_pages n (page + 1)
          (mark-IsCounted inv page lt (free page (omega arith) (omega arith))) (omega arith)
          (λ p lo hi. ground (arith, test-mark inv page lt p, free p (omega arith) (omega arith))),
    )
