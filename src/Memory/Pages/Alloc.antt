-- ===== src/Memory/Pages/Alloc.antt =====
-- `page_alloc_n` and `page_free_n` as wholes.
use rpi4_bare_metal_os.Prelude.{
  ℕ, ◌+◌, ◌-◌, ◌*◌, ◌/◌, ◌≤◌, ◌<◌, ◌≡◌, refl, sym, ◌≢◌, ◌∙◌, ◌⊎◌, true, false, arith, inl, inr, ltb,
  ◌==◌, count-cong,
}
use rpi4_bare_metal_os.Memory.Bitmap.{managed_pages, bitmap_test, bitmap_clear}
use rpi4_bare_metal_os.Memory.Pages.{
  PageState, page_size, Outcome, found, full, out_of_fuel, search_window, give, page_alloc_n,
  release, release_all, page_free_n, page_free,
}
use rpi4_bare_metal_os.Memory.Pages.Search.{IsFree, NoneFrom, Ends, search_window-Ends}
use rpi4_bare_metal_os.Memory.Pages.Count.{
  used_in_bitmap, used-le, IsCounted, Window, mark_all-Window, release_all-Window,
  mark_all-used_pages,
}

-- a window at page `i` was given out
pub record Got (n : ℕ) (s t : PageState) (addr i : ℕ) : Type 0 where
  pub address : addr ≡ (s.first_free_page + i) * page_size
  pub fits : i + n ≤ managed_pages
  pub free : IsFree s.bitmap i n
  pub lowest : NoneFrom s.bitmap n 0 i
  pub window : Window true n i s t
  pub taken : t.used_pages ≡ s.used_pages + n

-- no window of that size is free: NULL, and nothing has changed
pub record Refused (n : ℕ) (s t : PageState) (addr : ℕ) : Type 0 where
  pub null : addr ≡ 0
  pub same : t ≡ s
  pub none_free : (j : ℕ) → j + n ≤ managed_pages → ¬ IsFree s.bitmap j n

abbrev pub Answer : ℕ → PageState → PageState × ℕ → Type 0
Answer n s r = ((i : ℕ) × Got n s r.0 r.1 i) ⊎ Refused n s r.0 r.1

give-Answer :
    (n : ℕ) {s : PageState} (r : Outcome)
    → IsCounted s
    → Ends s.bitmap n 0 r
    → Answer n s (give n s r)
unfolding give
give-Answer n (found i) inv (fits, free, lowest) = inl (
  i,
  record {
    address = refl;
    fits = fits;
    free = free;
    lowest = lowest;
    window = mark_all-Window n i inv fits free;
    taken = mark_all-used_pages n i inv fits free;
  },
)
give-Answer n full inv ends =
    inr (record { null = refl; same = refl; none_free = λ j fits. ends j (omega arith) fits })
give-Answer n out_of_fuel inv ends = absurd ends

-- Where the count agrees with the bitmap and at least one page is asked for, page_alloc_n gives
-- out the lowest free window of that size and marks just its pages; where none is free, it answers
-- NULL and changes nothing.
pub page_alloc_n-first_fit :
    (n : ℕ) {s : PageState} → 0 < n → IsCounted s → Answer n s (page_alloc_n n s)
unfolding page_alloc_n
page_alloc_n-first_fit n {s} pos inv =
    let no : (n == 0) ≡ false = ground arith in
    rw no (
      give-Answer n (search_window (managed_pages + 1) s.bitmap n 0) inv
        (search_window-Ends s.bitmap n (managed_pages + 1) 0 (omega arith) (omega arith)))

-- Where the count agrees with the bitmap, freeing a window of managed pages makes its pages free,
-- leaves the others as they were, and keeps the agreement, also where pages of the window were
-- free already.
pub page_free_n-Window :
    (addr n : ℕ) {s : PageState}
    → IsCounted s
    → s.first_free_page ≤ addr / page_size
    → addr / page_size - s.first_free_page + n ≤ managed_pages
    → Window false n (addr / page_size - s.first_free_page) s (page_free_n addr n s)
unfolding page_free_n
page_free_n-Window addr n {s} inv above small =
    let yes' : ltb (addr / page_size) s.first_free_page ≡ false = ground arith in
    rw yes' (release_all-Window n (addr / page_size - s.first_free_page) inv small)

-- Two states agree on every page.
abbrev pub SamePages : PageState → PageState → Type 0
SamePages s t =
    (t.used_pages ≡ s.used_pages)
    × (t.first_free_page ≡ s.first_free_page)
    × ((p : ℕ) → bitmap_test t.bitmap p ≡ bitmap_test s.bitmap p)

used-cong :
    {s t : PageState}
    → IsCounted s
    → IsCounted t
    → ((p : ℕ) → bitmap_test t.bitmap p ≡ bitmap_test s.bitmap p)
    → t.used_pages ≡ s.used_pages
unfolding used_in_bitmap
used-cong {s} {t} i j same =
    j.counted ∙ count-cong managed_pages _ _ (λ p lt. same p) ∙ sym i.counted

module _ {n i addr : ℕ} {s t : PageState} (inv : IsCounted s) (got : Got n s t addr i) where
  place : addr / page_size - t.first_free_page ≡ i
  place = omega (arith, got.address, got.window.first)

  freed-Window : Window false n (addr / page_size - t.first_free_page) t (page_free_n addr n t)
  freed-Window =
      page_free_n-Window addr n got.window.inv (omega (arith, got.address, got.window.first))
        (omega (arith, place, got.fits))

  freed-tests : (p : ℕ) → bitmap_test (page_free_n addr n t).bitmap p ≡ bitmap_test s.bitmap p
  freed-tests p = ground (arith, freed-Window.tests p, got.window.tests p, place, got.free p)

  -- Freeing a window that was given out brings the state before back.
  pub freed-SamePages : IsCounted (page_free_n addr n t) × SamePages s (page_free_n addr n t)
  freed-SamePages = (
    freed-Window.inv,
    (
      used-cong inv freed-Window.inv freed-tests,
      freed-Window.first ∙ got.window.first,
      freed-tests,
    ),
  )

-- Where the count agrees with the bitmap, at least one page that page_alloc_n gave out and that is
-- freed again leaves every page and the count as they were.
pub page_free_n-alloc :
    (n : ℕ) {s : PageState}
    → 0 < n
    → IsCounted s
    → (page_alloc_n n s).1 ≢ 0
    → SamePages s (page_free_n (page_alloc_n n s).1 n (page_alloc_n n s).0)
page_free_n-alloc n {s} pos inv ok = elim (page_alloc_n-first_fit n pos inv) [
  | inr refused ↦ absurd (ok refused.null)
  | inl (i, got) ↦ (freed-SamePages inv got).1
]

-- Where the count agrees with the bitmap, freeing one page above the managed range leaves the
-- bitmap as it is and breaks the agreement.
pub page_free-beyond :
    (addr : ℕ) {s : PageState}
    → IsCounted s
    → s.first_free_page + managed_pages ≤ addr / page_size
    → ((page_free addr s).bitmap ≡ s.bitmap) × ¬ IsCounted (page_free addr s)
unfolding page_free page_free_n release_all release bitmap_test bitmap_clear
page_free-beyond addr {s} inv beyond =
    let above : ltb (addr / page_size) s.first_free_page ≡ false = ground arith in
    let out : ltb (addr / page_size - s.first_free_page) managed_pages ≡ false = ground arith in
    rw (above, out)
      (refl, λ inv'. absurd (omega (arith, inv.counted, inv'.counted, used-le s.bitmap)))
