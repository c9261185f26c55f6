-- ===== src/PageCache/Search.antt =====
-- The search of the page cache finds the first entry of a page, and a new entry hides none of another page.
use destin_x.Prelude.{
  ℕ, zero, suc, ◌≤◌, ◌≡◌, ◌≢◌, ◌⊎◌, refl, sym, ap, ◌∙◌, Bool, true, false, ◌&&◌, List, [], ◌∷◌,
  arith, ◌==◌, if◌then◌else◌, ==_self, length, ◌∉◌,
}
use destin_x.PageCache.{
  CachedPage, PageCache, is_page, search_from, get_page_cache, add_page_to_cache,
}

-- The entries from `cur` on are those at `xs`.
abbrev pub Linked : PageCache → ℕ → List ℕ → Type 0
Linked c cur [] = cur ≡ 0
Linked c cur (x ∷ xs) = (cur ≡ x) × (x ≢ 0) × Linked c (c.entry x).next xs

-- The first of the entries `xs` for a page, or null.
abbrev pub first_match : (id indx : ℕ) → PageCache → List ℕ → ℕ
first_match id indx c [] = 0
first_match id indx c (x ∷ xs) =
    let rest = first_match id indx c xs in if is_page id indx (c.entry x) then x else rest

search_from-Linked :
    (rounds cur id indx : ℕ) (c : PageCache) (xs : List ℕ)
    → Linked c cur xs
    → length xs ≤ rounds
    → search_from rounds cur id indx c ≡ first_match id indx c xs
unfolding search_from
search_from-Linked zero cur id indx c [] e small = refl
search_from-Linked zero cur id indx c (x ∷ xs) l small = absurd (omega (arith, small))
search_from-Linked (suc rounds) cur id indx c [] e small = ground (arith, e)
search_from-Linked (suc rounds) cur id indx c (x ∷ xs) (e, ne, l) small =
    let ih = search_from-Linked rounds (c.entry x).next id indx c xs l (omega (arith, small)) in
    rw e (ground (arith, ne, ih))

-- `get_page_cache` returns the first entry of the list for the page, in as many rounds as there are entries.
pub get_page_cache-first_match :
    (rounds id indx : ℕ) (c : PageCache) (xs : List ℕ)
    → Linked c c.cache_list xs
    → length xs ≤ rounds
    → get_page_cache rounds id indx c ≡ first_match id indx c xs
unfolding get_page_cache
get_page_cache-first_match rounds id indx c xs = search_from-Linked rounds c.cache_list id indx c xs

-- What the search reads of the entries.
abbrev pub SameKeys : PageCache → PageCache → Type 0
SameKeys c d =
    (c.cache_list ≡ d.cache_list)
    × ((a : ℕ)
        → ((c.entry a).id ≡ (d.entry a).id)
          × ((c.entry a).indx ≡ (d.entry a).indx)
          × ((c.entry a).next ≡ (d.entry a).next))

search_from-SameKeys :
    (rounds cur id indx : ℕ) (c d : PageCache)
    → SameKeys c d
    → search_from rounds cur id indx c ≡ search_from rounds cur id indx d
unfolding search_from
search_from-SameKeys zero cur id indx c d s = refl
search_from-SameKeys (suc rounds) cur id indx c d s =
    let ih = search_from-SameKeys rounds (c.entry cur).next id indx c d s in
    let (e1, e2, e3) = s.1 cur in rw (ih, e1, e2, e3) refl

pub get_page_cache-SameKeys :
    (rounds id indx : ℕ) (c d : PageCache)
    → SameKeys c d
    → get_page_cache rounds id indx c ≡ get_page_cache rounds id indx d
unfolding get_page_cache
get_page_cache-SameKeys rounds id indx c d s =
    search_from-SameKeys rounds c.cache_list id indx c d s
    ∙ ap (λ (p : ℕ). search_from rounds p id indx d) s.0

-- What the search finds is an entry of the page.
search_from-is_page :
    (rounds cur id indx : ℕ) (c : PageCache)
    → search_from rounds cur id indx c ≢ 0
    → is_page id indx (c.entry (search_from rounds cur id indx c)) ≡ true
unfolding search_from
search_from-is_page zero cur id indx c ne = absurd (ne refl)
search_from-is_page (suc rounds) cur id indx c ne =
    let ih = search_from-is_page rounds (c.entry cur).next id indx c in ground (arith, ih)

pub get_page_cache-is_page :
    (rounds id indx : ℕ) (c : PageCache)
    → get_page_cache rounds id indx c ≢ 0
    → is_page id indx (c.entry (get_page_cache rounds id indx c)) ≡ true
unfolding get_page_cache
get_page_cache-is_page rounds id indx c = search_from-is_page rounds c.cache_list id indx c

-- The other entries stay on the list when one is added.
Linked-add :
    (n cur : ℕ) (e : CachedPage) (c d : PageCache) (xs : List ℕ)
    → n ∉ xs
    → ((a : ℕ) → n ≢ a → d.entry a ≡ c.entry a)
    → Linked c cur xs
    → Linked d cur xs × ((id indx : ℕ) → first_match id indx d xs ≡ first_match id indx c xs)
Linked-add n cur e c d [] out same l = (l, λ id indx. refl)
Linked-add n cur e c d (x ∷ xs) out same (e1, ne, l) =
    let far : n ≢ x = ground (arith, out) in
    let at : d.entry x ≡ c.entry x = same x far in
    let rest : n ∉ xs = ground (arith, out) in
    let ih = Linked-add n (c.entry x).next e c d xs rest same l in
    ((e1, ne, rw at ih.0), λ id indx. rw (at, ih.1 id indx) refl)

-- What is found behind a new entry.
pub first_match-add :
    (n id indx addr : ℕ) (dirty : Bool) (c : PageCache) (xs : List ℕ)
    → Linked c c.cache_list xs
    → n ≢ 0
    → n ∉ xs
    → let d = add_page_to_cache n id indx addr dirty c in
      Linked d d.cache_list (n ∷ xs)
      × (d.entry n ≡ record {
        id = id;
        indx = indx;
        addr = addr;
        dirty = dirty;
        writeback = false;
        next = c.cache_list;
      })
      × ((id2 indx2 : ℕ)
          → first_match id2 indx2 d (n ∷ xs)
            ≡ (if (id == id2) && (indx == indx2) then n else first_match id2 indx2 c xs))
unfolding add_page_to_cache
first_match-add n id indx addr dirty c xs l ne out =
    let d = add_page_to_cache n id indx addr dirty c in
    let e : CachedPage = record {
      id = id;
      indx = indx;
      addr = addr;
      dirty = dirty;
      writeback = false;
      next = c.cache_list;
    } in
    let at : d.entry n ≡ e = rw (==_self n) refl in
    let kept = Linked-add n c.cache_list e c d xs out (λ a far. ground (arith, far)) l in
    ((refl, ne, rw at kept.0), at, λ id2 indx2. rw (at, kept.1 id2 indx2) refl)

-- With a list of the entries `xs`, at most `rounds`, and a new entry that is not null and none of them:
-- `add_page_to_cache` makes the new entry the first of the list, `get_page_cache` finds it for its own page with
-- the address and the flag that were given, and finds for another page what it found before.
pub add_page_to_cache-get_page_cache :
    (rounds new_entry id indx addr : ℕ) (dirty : Bool) (c : PageCache) (xs : List ℕ) (id2 indx2 : ℕ)
    → Linked c c.cache_list xs
    → length xs ≤ rounds
    → new_entry ≢ 0
    → new_entry ∉ xs
    → (id ≢ id2) ⊎ (indx ≢ indx2)
    → let d = add_page_to_cache new_entry id indx addr dirty c in
      Linked d d.cache_list (new_entry ∷ xs)
      × (get_page_cache (suc rounds) id indx d ≡ new_entry)
      × ((d.entry new_entry).addr ≡ addr)
      × ((d.entry new_entry).dirty ≡ dirty)
      × (get_page_cache (suc rounds) id2 indx2 d ≡ get_page_cache rounds id2 indx2 c)
add_page_to_cache-get_page_cache rounds n id indx addr dirty c xs id2 indx2 l small ne out other =
    let d = add_page_to_cache n id indx addr dirty c in
    let (linked, at, found) = first_match-add n id indx addr dirty c xs l ne out in
    let enough : length (n ∷ xs) ≤ suc rounds = omega (arith, small) in
    let misses : ((id == id2) && (indx == indx2)) ≡ false = ground (arith, other) in
    (
      linked,
      get_page_cache-first_match (suc rounds) id indx d (n ∷ xs) linked enough
          ∙ found id indx
          ∙ ground arith,
      ap (λ (e : CachedPage). e.addr) at,
      ap (λ (e : CachedPage). e.dirty) at,
      get_page_cache-first_match (suc rounds) id2 indx2 d (n ∷ xs) linked enough
          ∙ found id2 indx2
          ∙ rw misses (sym (get_page_cache-first_match rounds id2 indx2 c xs l small)),
    )

-- Flags do not matter.
pub first_match-SameKeys :
    (id indx cur : ℕ) (c d : PageCache) (xs : List ℕ)
    → SameKeys c d
    → Linked c cur xs
    → Linked d cur xs × (first_match id indx d xs ≡ first_match id indx c xs)
first_match-SameKeys id indx cur c d [] same l = (l, refl)
first_match-SameKeys id indx cur c d (x ∷ xs) (head, same) (e, ne, l) =
    let (i, j, n) = same x in
    let ih = first_match-SameKeys id indx (c.entry x).next c d xs (head, same) l in
    ((e, ne, rw (sym n) ih.0), rw (sym i, sym j, ih.1) refl)
