-- ===== src/Slab/Objects.antt =====
-- The list of the free objects that `slab_create` makes.
use destin_x.Prelude.{
  ℕ, zero, suc, ◌+◌, ◌*◌, ◌%◌, ◌^◌, ◌≤◌, ◌<◌, ◌≡◌, refl, ap, ◌∙◌, inl, inr, true, Option, some,
  List, [], ◌∷◌, arith, leb, if◌then◌else◌, update, add64, Bool-cases, ==_self,
}
use destin_x.Buddy.{index_of}
use destin_x.Slab.{Slabs, fill_loop, first_obj, with_header, install, create_at}
use mathlib.Core.Path.{subst}

-- `n` objects of `size` bytes from `a` on.
abbrev pub objects : (n a size : ℕ) → List ℕ
objects zero a size = []
objects (suc n) a size = a ∷ objects n (a + size) size

-- The address behind them.
abbrev pub behind : (n a size : ℕ) → ℕ
behind zero a size = a
behind (suc n) a size = behind n (a + size) size

-- The free list from `a` on holds exactly the objects `xs`.
abbrev pub IsChain : (ℕ → ℕ) → ℕ → List ℕ → Type 0
IsChain word a [] = a ≡ 0
IsChain word a (x ∷ xs) = (a ≡ x) × IsChain word (word x) xs

-- As many objects as fit between `a` and `page_end`.
abbrev pub Fit : (n a size page_end : ℕ) → Type 0
Fit n a size page_end = (behind n a size ≤ page_end) × (page_end < behind n a size + size)

-- What the loop leaves from `curr` on.
pub record Filled (curr size page_end free_count : ℕ) (word : ℕ → ℕ) (out : Option (ℕ × (ℕ → ℕ)))
    : Type 0 where
  pub n : ℕ
  pub word' : ℕ → ℕ
  pub result : out ≡ some (free_count + n, word')
  pub fit : Fit n curr size page_end
  pub chain : IsChain word' (if leb (curr + size) page_end then curr else 0) (objects n curr size)
  pub below : (a : ℕ) → a < curr → word' a ≡ word a

one_more :
    (curr size page_end c : ℕ) (word : ℕ → ℕ) (link : ℕ) (out : Option (ℕ × (ℕ → ℕ)))
    → 0 < size
    → leb (curr + size) page_end ≡ true
    → link ≡ (if leb (curr + size + size) page_end then curr + size else 0)
    → Filled (curr + size) size page_end (c + 1) (update word curr link) out
    → Filled curr size page_end c word out
one_more curr size page_end c word link out pos more e ih =
    let at : ih.word' curr ≡ (if leb (curr + size + size) page_end then curr + size else 0) =
      ih.below curr (omega (arith, pos)) ∙ rw (==_self curr) e in
    let ends : c + 1 + ih.n ≡ c + suc ih.n = omega arith in
    record {
      n = suc ih.n;
      word' = ih.word';
      result = ih.result ∙ ap (λ (m : ℕ). some (m, ih.word')) ends;
      fit = ih.fit;
      chain = rw more (refl, rw at ih.chain);
      below = λ a lo. ih.below a (omega (arith, lo)) ∙ ground (arith, lo);
    }

fill_loop-Filled :
    (fuel curr size page_end free_count : ℕ) (word : ℕ → ℕ)
    → page_end < curr + fuel
    → curr ≤ page_end
    → page_end + 2 * size < 2 ^ 64
    → 0 < size
    → Filled curr size page_end free_count word (fill_loop fuel curr size page_end free_count word)
unfolding fill_loop
fill_loop-Filled zero curr size page_end c word enough le small pos =
    absurd (omega (arith, enough, le))
fill_loop-Filled (suc fuel) curr size page_end c word enough le small pos =
    let next : add64 curr size ≡ curr + size = omega (arith, le, small) in
    elim (Bool-cases (leb (curr + size) page_end)) [
      | inl more ↦
          let room : curr + size ≤ page_end = ground (arith, more) in
          let twice : add64 (curr + size) size ≡ curr + size + size = omega (arith, room, small) in
          let link = if leb (curr + size + size) page_end then curr + size else 0 in
          let ih =
            fill_loop-Filled fuel (curr + size) size page_end (c + 1) (update word curr link)
              (omega (arith, enough, pos)) room small pos in
          rw (next, more, twice) (one_more curr size page_end c word link _ pos more refl ih)
      | inr done ↦
          rw (next, done)
            (record {
              n = 0;
              word' = word;
              result = ap (λ (m : ℕ). some (m, word)) (omega arith);
              fit = (le, ground (arith, done));
              chain = rw done refl;
              below = λ a lo. refl;
            })
    ]

-- A new slab of cache `i` at `page`: its free list holds exactly the objects, as many as fit behind the header.
pub record Created (page i : ℕ) (s : Slabs) (out : Option (ℕ × Slabs)) : Type 0 where
  pub n : ℕ
  pub s' : Slabs
  pub result : out ≡ some (page, s')
  pub fit : Fit n (page + 40) (s.cache i).obj_size (page + 4096)
  pub chain : IsChain s'.word (s'.slab page).free_list (objects n (page + 40) (s.cache i).obj_size)
  pub counts : ((s'.slab page).free_count ≡ n) × ((s'.slab page).total_count ≡ n)
  pub parent : (s'.slab page).parent_cache ≡ i
  pub marked : (s'.buddy.metadata (index_of page)).is_slab ≡ true
  pub outside : (a : ℕ) → a < page + 40 → s'.word a ≡ s.word a

with_header-at :
    (page i : ℕ) (s : Slabs) (n : ℕ) (words : ℕ → ℕ)
    → (((with_header page i s n words).slab page).free_list ≡ first_obj page)
      × (((with_header page i s n words).slab page).free_count ≡ n)
      × (((with_header page i s n words).slab page).total_count ≡ n)
      × (((with_header page i s n words).slab page).parent_cache ≡ i)
      × (((with_header page i s n words).buddy.metadata (index_of page)).is_slab ≡ true)
with_header-at page i s n words =
    rw (==_self page, ==_self (index_of page)) (refl, refl, refl, refl, refl)

add_zero : (n : ℕ) → 0 + n ≡ n
add_zero n = omega arith

IsChain-from :
    (size page n : ℕ) (word : ℕ → ℕ)
    → leb (page + 40 + size) (page + 4096) ≡ true
    → IsChain word
        (if leb (page + 40 + size) (page + 4096) then page + 40 else 0)
        (objects n (page + 40) size)
    → IsChain word (page + 40) (objects n (page + 40) size)
IsChain-from size page n word fits c =
    let chosen : (if leb (page + 40 + size) (page + 4096) then page + 40 else 0) ≡ page + 40 =
      rw fits refl in
    subst (λ (a : ℕ). IsChain word a (objects n (page + 40) size)) chosen c

-- On a page below 2^64 with objects of at most 2048 bytes `slab_create` makes a slab whose free list holds exactly
-- the objects behind the header, in order and as many as fit in the page; both counts are their number, the page is
-- marked as a slab, and nothing before the objects is written.
pub create_at_lem :
    (fuel page i : ℕ) (s : Slabs)
    → page % 4096 ≡ 0
    → page + 3 * 4096 < 2 ^ 64
    → 0 < (s.cache i).obj_size
    → (s.cache i).obj_size ≤ 2048
    → 4096 < fuel
    → Created page i s (create_at fuel page i s)
unfolding create_at
create_at_lem fuel page i s al word pos most enough =
    let size = (s.cache i).obj_size in
    let first : first_obj page ≡ page + 40 = omega (arith, al, word) in
    let end : add64 page 4096 ≡ page + 4096 = omega (arith, word) in
    let f =
      fill_loop-Filled fuel (page + 40) size (page + 4096) 0 s.word (omega (arith, enough))
        (omega arith) (omega (arith, word, most)) pos in
    let some_fits : leb (page + 40 + size) (page + 4096) ≡ true = ground (arith, most) in
    let start : fill_loop fuel (first_obj page) size (add64 page 4096) 0 s.word
        ≡ fill_loop fuel (page + 40) size (page + 4096) 0 s.word =
      λ k. fill_loop fuel (first k) size (end k) 0 s.word in
    let (h0, h1, h2, h3, h4) = with_header-at page i s f.n f.word' in
    record {
      n = f.n;
      s' = with_header page i s f.n f.word';
      result =
          ap (install page i s) (start ∙ f.result)
          ∙ ap (λ (k : ℕ). some (page, with_header page i s k f.word')) (add_zero f.n);
      fit = f.fit;
      chain = rw (h0 ∙ first) (IsChain-from size page f.n f.word' some_fits f.chain);
      counts = (h1, h2);
      parent = h3;
      marked = h4;
      outside = f.below;
    }
