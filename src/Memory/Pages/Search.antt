-- ===== src/Memory/Pages/Search.antt =====
-- The search of `page_alloc_n` ends, and it finds the first window that is free.
use native.Mathlib.Decide.{ℕ_discrete, dec_lt}
use rpi4_bare_metal_os.Prelude.{
  ℕ, zero, suc, ◌+◌, ◌≤◌, ◌<◌, ◌≡◌, true, false, none, some, arith, inl, inr, Bool-cases,
  Option-cases, leb, subst,
}
use rpi4_bare_metal_os.Memory.Bitmap.{Bitmap, managed_pages, bitmap_test}
use rpi4_bare_metal_os.Memory.Pages.{blocked, Outcome, found, full, out_of_fuel, search_window}

-- the pages from `i` on, `count` of them, are free
abbrev pub IsFree : Bitmap → ℕ → ℕ → Type 0
IsFree bm i count = (p : ℕ) → i ≤ p → p < i + count → bitmap_test bm p ≡ false

blocked-none : (bm : Bitmap) (i count : ℕ) → blocked bm i count ≡ none → IsFree bm i count
unfolding blocked
blocked-none bm i zero e p lo hi = absurd (omega arith)
blocked-none bm i (suc count) e p lo hi = elim (ℕ_discrete i p) [
  | yes here ↦ subst (λ q. bitmap_test bm q ≡ false) here (ground arith)
  | no later ↦ blocked-none bm (i + 1) count (ground arith) p (omega arith) (omega arith)
]

blocked-some :
    (bm : Bitmap) (i count next : ℕ)
    → blocked bm i count ≡ some next
    → (p : ℕ) × (next ≡ p + 1) × (i ≤ p) × (p < i + count) × (bitmap_test bm p ≡ true)
unfolding blocked
blocked-some bm i zero next e = cc
blocked-some bm i (suc count) next e = elim (Bool-cases (bitmap_test bm i)) [
  | inl used ↦ (i, ground arith, ground arith, ground arith, used)
  | inr free ↦
      let (p, a, b, c, d) = blocked-some bm (i + 1) count next (ground arith) in
      (p, a, omega arith, omega arith, d)
]

-- A window that holds a used page is not free.
not-IsFree :
    (bm : Bitmap) (i count p : ℕ)
    → i ≤ p
    → p < i + count
    → bitmap_test bm p ≡ true
    → ¬ IsFree bm i count
not-IsFree bm i count p lo hi used free = cc (free p lo hi)

module _ (bm : Bitmap) (count : ℕ) where
  -- no window of `count` free pages starts in `[i, k)`
  abbrev pub NoneFrom : ℕ → ℕ → Type 0
  NoneFrom i k = (j : ℕ) → i ≤ j → j < k → ¬ IsFree bm j count

  -- what the end of a search from `i` means
  abbrev pub Ends : ℕ → Outcome → Type 0
  Ends i (found k) = (k + count ≤ managed_pages) × IsFree bm k count × NoneFrom i k
  Ends i full = (j : ℕ) → i ≤ j → j + count ≤ managed_pages → ¬ IsFree bm j count
  Ends i out_of_fuel = ⊥

  -- A used page at `p` rules out the windows that start between `i` and `p`.
  Ends-later :
      (r : Outcome) (i p : ℕ) → p < i + count → bitmap_test bm p ≡ true → Ends (p + 1) r → Ends i r
  Ends-later (found k) i p hi used (fits, free, none_between) = (
    fits,
    free,
    λ j lo lt. elim (dec_lt p j) [
      | yes later ↦ none_between j (omega arith) lt
      | no sooner ↦ not-IsFree bm j count p (omega arith) (omega arith) used
    ],
  )
  Ends-later full i p hi used ends = λ j lo fits. elim (dec_lt p j) [
    | yes later ↦ ends j (omega arith) fits
    | no sooner ↦ not-IsFree bm j count p (omega arith) (omega arith) used
  ]
  Ends-later out_of_fuel i p hi used ends = ends

  -- With a round for each page that is left the search ends, with the first free window or none.
  pub search_window-Ends :
      (fuel i : ℕ)
      → i ≤ managed_pages
      → managed_pages < fuel + i
      → Ends i (search_window fuel bm count i)
  unfolding search_window
  search_window-Ends zero i small enough = absurd (omega arith)
  search_window-Ends (suc fuel) i small enough = elim (Bool-cases (leb (i + count) managed_pages)) [
    | inr over ↦ rw (over, search_window) (λ j lo fits. absurd (ground arith))
    | inl fits ↦ elim (Option-cases (blocked bm i count)) [
      | inl free ↦
          rw (fits, search_window, free, search_window)
            (ground arith, blocked-none bm i count free, λ j lo lt. absurd (omega arith))
      | inr (next, e) ↦
          let (p, a, b, c, d) = blocked-some bm i count next e in
          rw (fits, search_window, e, search_window)
            (Ends-later (search_window fuel bm count next) i p c d
              (rw (← a) (search_window-Ends fuel next (ground arith) (omega arith))))
    ]
  ]
