-- ===== src/Pmm/Run.antt =====
-- `pmm_alloc_pages` against the runs of free pages.
use destin_x.Prelude.{
  ℕ, zero, suc, ◌+◌, ◌-◌, ◌*◌, ◌^◌, ◌≤◌, ◌<◌, ◌≡◌, ◌≢◌, ◌⊎◌, refl, inl, inr, true, false, ◌&&◌,
  ◌||◌, none, some, arith, ltb, leb, ◌==◌, Bool-cases,
}
use native.Mathlib.Decide.{dec_lt}
use destin_x.Pmm.{
  Pmm, page_size, bitmap_test, first_taken, set_run, int_page_addr, alloc_pages_loop, alloc_pages,
}
use destin_x.Pmm.Bitmap.{IsBytes, bitmap_set-IsBytes, bitmap_test-set}

-- The `count` pages from `i` on are free.
pub record FreeRun (s : Pmm) (i count : ℕ) : Type 0 where
  pub free : (j : ℕ) → j < count → bitmap_test s (i + j) ≡ false

first_taken_lem :
    (s : Pmm) (i rounds j : ℕ)
    → ((first_taken s i rounds j ≡ none)
        × ((k : ℕ) → j ≤ k → k < j + rounds → bitmap_test s (i + k) ≡ false))
      ⊎ ((k : ℕ) × (first_taken s i rounds j ≡ some k)
          × (j ≤ k)
          × (k < j + rounds)
          × (bitmap_test s (i + k) ≡ true))
unfolding first_taken
first_taken_lem s i zero j = inl (refl, λ k lo hi. absurd (omega arith))
first_taken_lem s i (suc rounds) j = elim (Bool-cases (bitmap_test s (i + j))) [
  | inl used ↦ rw used (inr (j, refl, omega arith, omega arith, used))
  | inr unused ↦ rw unused (elim (first_taken_lem s i rounds (j + 1)) [
    | inl (e, all) ↦ inl (
      e,
      λ k lo hi. elim (Bool-cases (j == k)) [
        | inl same ↦ ground arith
        | inr ne ↦ all k (ground arith) (omega arith)
      ],
    )
    | inr (k, e, lo, hi, used) ↦ inr (k, e, omega arith, omega arith, used)
  ])
]

set_run-test :
    (rounds i j : ℕ) {s : Pmm} (k : ℕ)
    → IsBytes s
    → bitmap_test (set_run rounds i j s) k
      ≡ ((leb (i + j) k && ltb k (i + j + rounds)) || bitmap_test s k)
unfolding set_run
set_run-test zero i j k v = ground arith
set_run-test (suc rounds) i j k v = ground (
  arith,
  set_run-test rounds i (j + 1) k (bitmap_set-IsBytes v (i + j)),
  bitmap_test-set v (i + j) k,
)

set_run-IsBytes : (rounds i j : ℕ) {s : Pmm} → IsBytes s → IsBytes (set_run rounds i j s)
unfolding set_run
set_run-IsBytes zero i j v = v
set_run-IsBytes (suc rounds) i j v = set_run-IsBytes rounds i (j + 1) (bitmap_set-IsBytes v (i + j))

-- The run of `count` pages at `p` is the lowest free one from `i` on; `out` is what taking it gives.
pub record TakenRun (s : Pmm) (count i : ℕ) (out : ℕ × Pmm) (p : ℕ) : Type 0 where
  pub in_range : (i ≤ p) × (p ≤ s.total_pages)
  pub run : FreeRun s p count
  pub lowest : (k : ℕ) → i ≤ k → k < p → ¬ FreeRun s k count
  pub addr : out.0 ≡ p * page_size
  pub after : (k : ℕ) → bitmap_test out.1 k ≡ ((leb p k && ltb k (p + count)) || bitmap_test s k)
  pub bytes : IsBytes out.1

-- What a search from page `i` on may return.
abbrev pub Searched : Pmm → ℕ → ℕ → ℕ × Pmm → Type 0
Searched s count i out =
    ((out ≡ (0, s)) × ((k : ℕ) → i ≤ k → k ≤ s.total_pages → ¬ FreeRun s k count))
    ⊎ ((p : ℕ) × TakenRun s count i out p)

-- A taken page `t` rules out every run that spans it.
Searched-skip :
    {s : Pmm} (count i t : ℕ) {out : ℕ × Pmm}
    → i ≤ t
    → t < i + count
    → bitmap_test s t ≡ true
    → Searched s count (t + 1) out
    → Searched s count i out
Searched-skip {s} count i t lo hi used found = elim found [
  | inl (e, no_run) ↦ inl (e, λ k a b. skip k no_run a b)
  | inr (p, r) ↦ inr (
    p,
    record {
      in_range = (omega (arith, r.in_range), r.in_range.1);
      run = r.run;
      lowest = λ k a b. lower k r a b;
      addr = r.addr;
      after = r.after;
      bytes = r.bytes;
    },
  )
]
  where
    spans : (k : ℕ) → i ≤ k → k ≤ t → ¬ FreeRun s k count
    spans k a b f =
        let e : k + (t - k) ≡ t = omega arith in
        let free : bitmap_test s (k + (t - k)) ≡ false = f.free (t - k) (omega arith) in
        ground (arith, e, free, used)

    skip :
        (k : ℕ)
        → ((j : ℕ) → t + 1 ≤ j → j ≤ s.total_pages → ¬ FreeRun s j count)
        → i ≤ k
        → k ≤ s.total_pages
        → ¬ FreeRun s k count
    skip k none_later a b = elim (dec_lt t k) [
      | yes later ↦ none_later k (omega arith) b
      | no early ↦ spans k a (omega arith)
    ]

    lower :
        (k : ℕ) {p : ℕ} {out : ℕ × Pmm}
        → TakenRun s count (t + 1) out p
        → i ≤ k
        → k < p
        → ¬ FreeRun s k count
    lower k r a b = elim (dec_lt t k) [
      | yes later ↦ r.lowest k (omega arith) b
      | no early ↦ spans k a (omega arith)
    ]

-- The product `i * PAGE_SIZE_4KB` is the address of the page only below page 2^19: from
-- 2 GiB up the `int` product wraps and the address is sign-extended, another one.
int_page_addr_lem :
    (i : ℕ)
    → i < 2 ^ 31
    → (i < 2 ^ 19 → int_page_addr i ≡ i * page_size)
      × (2 ^ 19 ≤ i → int_page_addr i ≢ i * page_size)
unfolding int_page_addr
int_page_addr_lem i small = (λ h. ground arith, λ h e. ground arith)

alloc_pages_loop_lem :
    (fuel count i : ℕ) {s : Pmm}
    → IsBytes s
    → 1 ≤ count
    → 0 < fuel
    → s.total_pages + 1 < i + fuel
    → i ≤ 2 * s.total_pages + 1
    → count ≤ s.total_pages
    → s.total_pages < 2 ^ 19
    → (out : ℕ × Pmm) × (alloc_pages_loop fuel count i s ≡ some out) × Searched s count i out
unfolding alloc_pages_loop
alloc_pages_loop_lem zero count i v pos some_fuel enough in_int fits few = absurd (omega arith)
alloc_pages_loop_lem (suc fuel) count i {s} v pos some_fuel enough in_int fits few =
    let int : leb (2 ^ 31) i ≡ false = ground (arith, in_int, few) in
    elim (Bool-cases (leb i s.total_pages)) [
      | inr past ↦ rw (int, past) ((0, s), refl, inl (refl, λ k lo hi. absurd (ground arith)))
      | inl within ↦ elim (Bool-cases (bitmap_test s i)) [
        | inl used ↦
            let (out, e, found) =
              alloc_pages_loop_lem fuel count (i + 1) v pos (ground arith) (ground arith)
                (ground arith) fits few in
            rw (int, within, used)
              (out, e, Searched-skip count i i (omega arith) (omega arith) used found)
        | inr unused ↦ elim (first_taken_lem s i (count - 1) 1) [
          | inl (clear, all) ↦
              rw (int, within, unused, clear)
                (
                  (int_page_addr i, set_run count i 0 s),
                  refl,
                  inr (
                    i,
                    record {
                      in_range = (omega arith, ground arith);
                      run = record {
                        free = λ j lt. elim (dec_lt 0 j) [
                          | yes p ↦ all j p (omega arith)
                          | no p ↦ let z : i + j ≡ i = omega arith in rw z unused
                        ];
                      };
                      lowest = λ k a b. absurd (omega arith);
                      addr =
                          (int_page_addr_lem i (ground (arith, within, few))).0
                            (ground (arith, within, few));
                      after = λ k. ground (arith, set_run-test count i 0 k v);
                      bytes = set_run-IsBytes count i 0 v;
                    },
                  ),
                )
          | inr (j, hit, lo, hi, used) ↦
              let (out, e, found) =
                alloc_pages_loop_lem fuel count (i + j + 1) v pos (ground arith) (ground arith)
                  (ground arith) fits few in
              rw (int, within, unused, hit)
                (out, e, Searched-skip count i (i + j) (omega arith) (omega arith) used found)
        ]
      ]
    ]

-- `pmm_alloc_pages` of 1 to `total_pages` pages returns, for fewer than 2^19 pages, which are 2 GiB. It takes
-- the lowest free run of that many pages whose first page is at most `total_pages`, sets exactly the bits of its
-- pages and returns its address; or there is no such run, and it returns 0 and changes nothing.
pub alloc_pages_lem :
    (count : ℕ) {s : Pmm}
    → IsBytes s
    → 1 ≤ count
    → count ≤ s.total_pages
    → s.total_pages < 2 ^ 19
    → (out : ℕ × Pmm) × (alloc_pages count s ≡ some out) × Searched s count 0 out
unfolding alloc_pages
alloc_pages_lem count {s} v pos fits few =
    let (out, e, found) =
      alloc_pages_loop_lem (s.total_pages + 2) count 0 v pos (omega arith) (omega arith)
        (omega arith) fits few in
    (out, ground (arith, e), found)
