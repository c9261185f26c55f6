-- ===== src/Vmm/Tables.antt =====
-- What a step down the page tables changes, and what it leaves.
use destin_x.Prelude.{
  ℕ, zero, suc, ◌+◌, ◌*◌, ◌/◌, ◌%◌, ◌^◌, ◌<◌, ◌≡◌, ◌≢◌, ◌⊎◌, refl, sym, ap, ◌∙◌, inl, inr, Bool,
  true, false, arith, if◌then◌else◌, update, add64, Bool-cases, ==_self, bit_or,
}
use destin_x.Pmm.{alloc_page}
use destin_x.Pmm.Page.{alloc_page-aligned}
use destin_x.Vmm.{
  Vmm, direct_offset, is_present, is_user, page_of, cell, set_word, clear_words, clear_table,
  new_table, provide,
}
use destin_x.Vmm.Entry.{bit_or-page, bit_or-user}

-- A page on a page boundary below 2^64.
abbrev pub IsPage : ℕ → Type 0
IsPage p = (p % 4096 ≡ 0) × (p < 2 ^ 64)

pub cell-apart :
    (p q i j : ℕ) → IsPage p → IsPage q → p ≢ q → i < 512 → j < 512 → cell p i ≢ cell q j
cell-apart p q i j hp hq ne hi hj = λ e. ne (omega (arith, hp.0, hp.1, hq.0, hq.1, hi, hj, e))

pub page_of-IsPage : (x : ℕ) → x < 2 ^ 64 → IsPage (page_of x)
page_of-IsPage x small = (omega arith, omega (arith, small))

-- Clearing a page keeps the words of the others.
clear_words-other :
    (count i : ℕ) (t : ℕ) (mem : ℕ → ℕ) (a : ℕ)
    → ((j : ℕ) → j < 512 → cell t j ≢ a)
    → i + count ≡ 512
    → clear_words count (cell t i) mem a ≡ mem a
unfolding clear_words
clear_words-other zero i t mem a out e = refl
clear_words-other (suc count) i t mem a out e =
    let next : add64 (cell t i) 8 ≡ cell t (i + 1) = omega arith in
    let ih = clear_words-other count (i + 1) t (update mem (cell t i) 0) a out (omega (arith, e)) in
    let ne = out i (omega (arith, e)) in rw next (ih ∙ ground (arith, ne))

update-small : (t b : ℕ) (mem : ℕ → ℕ) → ((a : ℕ) → mem a < 2 ^ 64) → update mem t 0 b < 2 ^ 64
update-small t b mem small = let old = small b in ground (arith, old)

clear_words-small :
    (count t : ℕ) (mem : ℕ → ℕ)
    → ((a : ℕ) → mem a < 2 ^ 64)
    → (a : ℕ) → clear_words count t mem a < 2 ^ 64
unfolding clear_words
clear_words-small zero t mem small a = small a
clear_words-small (suc count) t mem small a =
    clear_words-small count (add64 t 8) (update mem t 0) (λ b. update-small t b mem small) a

clear_table-other :
    (t q j : ℕ) (v : Vmm)
    → IsPage t
    → IsPage q
    → t ≢ q
    → j < 512
    → (clear_table t v).word (cell q j) ≡ v.word (cell q j)
clear_table-other t q j v ht hq ne hj =
    let first : cell t 0 ≡ add64 t direct_offset = omega arith in
    rw (sym first)
      (clear_words-other 512 0 t v.word (cell q j) (λ i hi. cell-apart t q i j ht hq ne hi hj) refl)

-- The entry of a new table: present, and the address of the table.
new_entry :
    (page f : ℕ)
    → IsPage page
    → (f ≡ 3) ⊎ (f ≡ 7)
    → (is_present (bit_or page f) ≡ true)
      × (page_of (bit_or page f) ≡ page)
      × (bit_or page f < 2 ^ 64)
new_entry page f h kind =
    let small : (f < 8) × (f % 2 ≡ 1) = elim kind [
      | inl e ↦ (omega (arith, e), omega (arith, e))
      | inr e ↦ (omega (arith, e), omega (arith, e))
    ] in
    let sum = bit_or-page page f h.0 (omega (arith, small.0)) in
    let odd : (page + f) % 2 ≡ 1 = omega (arith, h.0, small.1) in
    rw (sum, odd) (refl, omega (arith, h.0, small.0), omega (arith, h.0, h.1, small.0))

user_entry :
    (e : ℕ)
    → is_present e ≡ true
    → e < 2 ^ 64
    → (is_present (bit_or e 4) ≡ true) × (bit_or e 4 < 2 ^ 64)
user_entry e p small =
    let sum = bit_or-user e in
    let odd : e % 2 ≡ 1 = ground (arith, p) in
    let odd' : (e / 8 * 8 + 4 + e % 4) % 2 ≡ 1 = omega (arith, odd) in
    rw (sum, odd') (refl, omega (arith, small))

abbrev table_bits : Bool → ℕ
table_bits b = if b then 7 else 3

table_flags : (b : Bool) → (table_bits b ≡ 3) ⊎ (table_bits b ≡ 7)
table_flags true = inr refl
table_flags false = inl refl

-- The three things that `provide` does.
provide_cases :
    (flags a : ℕ) (v : Vmm)
    → (provide flags a v ≡ new_table flags a v)
      ⊎ ((is_present (v.word a) ≡ true)
          × ((provide flags a v ≡ set_word a (bit_or (v.word a) 4) v) ⊎ (provide flags a v ≡ v)))
unfolding provide
provide_cases flags a v = elim (Bool-cases (is_present (v.word a))) [
  | inl there ↦ elim (Bool-cases (is_user flags)) [
    | inl user ↦ inr (there, inl (rw (there, user) refl))
    | inr not_user ↦ inr (there, inr (rw (there, not_user) refl))
  ]
  | inr absent ↦ inl (rw absent refl)
]

-- What is shown of the state after `provide`.
pub record Provided (a : ℕ) (v v1 : Vmm) : Type 0 where
  pub present : is_present (v1.word a) ≡ true
  pub small : (b : ℕ) → v1.word b < 2 ^ 64
  pub other :
      (q j : ℕ)
      → IsPage q
      → j < 512
      → a ≢ cell q j
      → page_of (v1.word a) ≢ q
      → v1.word (cell q j) ≡ v.word (cell q j)

pub same_word : (mem : ℕ → ℕ) (a x : ℕ) → update mem a x a ≡ x
same_word mem a x = rw (==_self a) refl

pub other_word : (mem : ℕ → ℕ) (a x b : ℕ) → a ≢ b → update mem a x b ≡ mem b
other_word mem a x b ne = ground (arith, ne)

new_table-Provided :
    (flags a : ℕ) (v : Vmm) → ((b : ℕ) → v.word b < 2 ^ 64) → Provided a v (new_table flags a v)
new_table-Provided flags a v small =
    let page = (alloc_page v.pmm).0 in
    let hp = alloc_page-aligned v.pmm in
    let e = bit_or page (table_bits (is_user flags)) in
    let v1 : Vmm = clear_table page (record v { pmm = (alloc_page v.pmm).1 }) in
    let (p, at, se) =
      new_entry page (table_bits (is_user flags)) hp (table_flags (is_user flags)) in
    let cleared = clear_words-small 512 (add64 page direct_offset) v.word small in
    record {
      present = rw (same_word v1.word a e) p;
      small = λ b. let old = cleared b in ground (arith, old, se);
      other = λ q j hq hj ne apart.
          let other_page : page ≢ q =
            λ same. apart (ap page_of (same_word v1.word a e) ∙ at ∙ same) in
          other_word v1.word a e (cell q j) ne
          ∙ clear_table-other page q j (record v { pmm = (alloc_page v.pmm).1 }) hp hq other_page
              hj;
    }

set_word-Provided :
    (a x : ℕ) (v : Vmm)
    → ((b : ℕ) → v.word b < 2 ^ 64)
    → is_present x ≡ true
    → x < 2 ^ 64
    → Provided a v (set_word a x v)
set_word-Provided a x v small p sx = record {
  present = rw (same_word v.word a x) p;
  small = λ b. let old = small b in ground (arith, old, sx);
  other = λ q j hq hj ne apart. other_word v.word a x (cell q j) ne;
}

pub provide-Provided :
    (flags a : ℕ) (v : Vmm) → ((b : ℕ) → v.word b < 2 ^ 64) → Provided a v (provide flags a v)
provide-Provided flags a v small = elim (provide_cases flags a v) [
  | inl e ↦ rw e (new_table-Provided flags a v small)
  | inr (p, inl e) ↦
      let (up, us) = user_entry (v.word a) p (small a) in
      rw e (set_word-Provided a (bit_or (v.word a) 4) v small up us)
  | inr (p, inr e) ↦
      rw e (record { present = p; small = small; other = λ q j hq hj ne apart. refl })
]
