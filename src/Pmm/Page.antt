-- ===== src/Pmm/Page.antt =====
-- `pmm_alloc_page` and `pmm_free_page` against the set of pages in use.
use destin_x.Prelude.{
  ℕ, zero, suc, ◌+◌, ◌*◌, ◌/◌, ◌%◌, ◌^◌, ◌≤◌, ◌<◌, ◌≡◌, ◌≢◌, ◌⊎◌, refl, ap, inl, inr, true, false,
  not, ◌&&◌, arith, ltb, ◌==◌, if◌then◌else◌, Bool-cases,
}
use destin_x.Pmm.{Pmm, page_size, bitmap_set, bitmap_test, alloc_page_loop, alloc_page, free_page}
use destin_x.Pmm.Bitmap.{
  IsBytes, bitmap_set-IsBytes, bitmap_clr-IsBytes, bitmap_test-set, bitmap_test-clr,
}

-- No page from `i` up to `n` is free.
abbrev pub AllTaken : Pmm → ℕ → ℕ → Type 0
AllTaken s i n = (j : ℕ) → i ≤ j → j < n → bitmap_test s j ≡ true

-- Page `p` is the lowest free one from `i` on, and `out` is what taking it gives.
pub record TakenPage (s : Pmm) (i n : ℕ) (out : ℕ × Pmm) (p : ℕ) : Type 0 where
  pub in_range : (i ≤ p) × (p < n)
  pub was_free : bitmap_test s p ≡ false
  pub lowest : AllTaken s i p
  pub addr : out.0 ≡ p * page_size
  pub after : out.1 ≡ bitmap_set s p

AllTaken-cons : (s : Pmm) (i n : ℕ) → bitmap_test s i ≡ true → AllTaken s (i + 1) n → AllTaken s i n
AllTaken-cons s i n h rest j lo hi = elim (Bool-cases (i == j)) [
  | inl e ↦ ground arith
  | inr ne ↦ rest j (ground arith) hi
]

alloc_page_loop_lem :
    (rounds i n : ℕ) (s : Pmm)
    → i + rounds ≡ n
    → n < 2 ^ 52
    → ((alloc_page_loop rounds i s ≡ (0, s)) × AllTaken s i n)
      ⊎ ((p : ℕ) × TakenPage s i n (alloc_page_loop rounds i s) p)
unfolding alloc_page_loop
alloc_page_loop_lem zero i n s e small = inl (refl, λ j lo hi. absurd (omega arith))
alloc_page_loop_lem (suc rounds) i n s e small = elim (Bool-cases (bitmap_test s i)) [
  | inl used ↦ rw used (elim (alloc_page_loop_lem rounds (i + 1) n s (omega arith) small) [
    | inl (full, all) ↦ inl (full, AllTaken-cons s i n used all)
    | inr (p, t) ↦ inr (
      p,
      record {
        in_range = (omega arith, omega arith);
        was_free = t.was_free;
        lowest = AllTaken-cons s i p used t.lowest;
        addr = t.addr;
        after = t.after;
      },
    )
  ])
  | inr unused ↦ rw unused (
      inr (
        i,
        record {
          in_range = (omega arith, omega arith);
          was_free = unused;
          lowest = λ j lo hi. absurd (omega arith);
          addr = omega arith;
          after = refl;
        },
      ))
]

-- `pmm_alloc_page` takes the lowest free page below `total_pages` and returns its address, or
-- returns 0 and changes nothing when every page is taken.
pub alloc_page_lem :
    (s : Pmm)
    → s.total_pages < 2 ^ 52
    → ((alloc_page s ≡ (0, s)) × AllTaken s 0 s.total_pages)
      ⊎ ((p : ℕ) × TakenPage s 0 s.total_pages (alloc_page s) p)
unfolding alloc_page
alloc_page_lem s small = alloc_page_loop_lem s.total_pages 0 s.total_pages s (omega arith) small

-- `pmm_free_page` clears the bit of the page that holds `paddr`, unless `paddr` is 0 or lies
-- outside the managed memory, and no other bit.
pub free_page-test :
    {s : Pmm} (paddr j : ℕ)
    → IsBytes s
    → bitmap_test (free_page paddr s) j ≡ (
        if not (paddr == 0) && ltb (paddr / page_size) s.total_pages && (paddr / page_size == j)
        then false
        else bitmap_test s j)
unfolding free_page
free_page-test {s} paddr j v = ground (arith, bitmap_test-clr v (paddr / page_size) j)

total-bitmap_set : (s : Pmm) (p : ℕ) → (bitmap_set s p).total_pages ≡ s.total_pages
unfolding bitmap_set
total-bitmap_set s p = refl

-- Freeing the page that `pmm_alloc_page` has returned restores every bit, unless it is page 0,
-- whose address is also the code for failure.
pub free_page-alloc_page :
    {s : Pmm} (j : ℕ)
    → IsBytes s
    → s.total_pages < 2 ^ 52
    → (alloc_page s).0 ≢ 0
    → bitmap_test (free_page (alloc_page s).0 (alloc_page s).1) j ≡ bitmap_test s j
free_page-alloc_page {s} j v small ok = elim (alloc_page_lem s small) [
  | inl (full, all) ↦ absurd (ok (ap (λ (r : ℕ × Pmm). r.0) full))
  | inr (p, t) ↦
      rw (t.addr, t.after)
        (ground (
          arith,
          ok,
          t.addr,
          t.was_free,
          t.in_range,
          free_page-test (p * page_size) j (bitmap_set-IsBytes v p),
          bitmap_test-set v p j,
          total-bitmap_set s p,
        ))
]

-- `pmm_alloc_page` and `pmm_free_page` keep the bitmap an array of bytes.
pmm-IsBytes :
    {s : Pmm} (paddr : ℕ)
    → IsBytes s
    → s.total_pages < 2 ^ 52
    → IsBytes (alloc_page s).1 × IsBytes (free_page paddr s)
unfolding free_page
pmm-IsBytes {s} paddr v small = (
  elim (alloc_page_lem s small) [
    | inl (full, all) ↦ rw full v
    | inr (p, t) ↦ rw (t.after) (bitmap_set-IsBytes v p)
  ],
  ground (arith, v, bitmap_clr-IsBytes v (paddr / page_size)),
)

alloc_page_loop-aligned :
    (rounds i : ℕ) (s : Pmm)
    → ((alloc_page_loop rounds i s).0 % 4096 ≡ 0) × ((alloc_page_loop rounds i s).0 < 2 ^ 64)
unfolding alloc_page_loop
alloc_page_loop-aligned zero i s = (refl, omega arith)
alloc_page_loop-aligned (suc rounds) i s = elim (Bool-cases (bitmap_test s i)) [
  | inl used ↦ rw used (alloc_page_loop-aligned rounds (i + 1) s)
  | inr free ↦ rw free (omega arith, omega arith)
]

pub alloc_page-aligned : (s : Pmm) → ((alloc_page s).0 % 4096 ≡ 0) × ((alloc_page s).0 < 2 ^ 64)
unfolding alloc_page
alloc_page-aligned s = alloc_page_loop-aligned s.total_pages 0 s
