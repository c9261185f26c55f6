-- ===== src/Areas/Remove.antt =====
-- Removing an area from a list, and the search for one.
use destin_x.Prelude.{
  ℕ, zero, suc, ◌<◌, ◌≡◌, ◌≢◌, refl, sym, ap, ◌∙◌, some, List, [], ◌∷◌, ◌++◌, arith, ◌==◌,
  if◌then◌else◌, length, ◌∉◌,
}
use destin_x.Links.{
  first, last, Chain, Chain-unlink, Chain-not_null, Chain-prev, Chain-next, ne_of_mem, if_ne,
  first-ne, last-ne, not-mem-append, not-mem_of_middle,
}
use destin_x.Areas.{Span, Areas, span, next_of, prev_of, remove_from_list, find_area}
use destin_x.Areas.Spec.{IsList}

module _ (s : Areas) (x : ℕ) (ne : x ≢ 0) where
  next_of-remove :
      (a : ℕ)
      → a ≢ 0
      → x ≢ a
      → next_of s x ≢ x
      → prev_of s x ≢ x
      → next_of (remove_from_list x s) a ≡ (if prev_of s x == a then next_of s x else next_of s a)
  unfolding remove_from_list
  next_of-remove a na xa nx px = ground (arith, ne)

  prev_of-remove :
      (a : ℕ)
      → a ≢ 0
      → x ≢ a
      → next_of s x ≢ x
      → prev_of s x ≢ x
      → prev_of (remove_from_list x s) a ≡ (if next_of s x == a then prev_of s x else prev_of s a)
  unfolding remove_from_list
  prev_of-remove a na xa nx px = ground (arith, ne)

  head-remove : (remove_from_list x s).head ≡ (if s.head == x then next_of s x else s.head)
  unfolding remove_from_list
  head-remove = ground (arith, ne)

  span-remove : (a : ℕ) → span (remove_from_list x s) a ≡ span s a
  unfolding remove_from_list
  span-remove a = ground (arith, ne)

  cleared : (next_of (remove_from_list x s) x ≡ 0) × (prev_of (remove_from_list x s) x ≡ 0)
  unfolding remove_from_list
  cleared = ground (arith, ne)

x-ne-neighbours :
    (s : Areas) (x : ℕ) (xs ys : List ℕ) → IsList s (xs ++ (x ∷ ys)) → (x ≢ 0) × (x ∉ xs) × (x ∉ ys)
x-ne-neighbours s x xs ys l = go 0 xs l.chain
  where
    go :
        (b : ℕ) (xs : List ℕ)
        → Chain (next_of s) (prev_of s) b (xs ++ (x ∷ ys))
        → (x ≢ 0) × (x ∉ xs) × (x ∉ ys)
    go b [] c = (c.0, refl, c.3)
    go b (z ∷ xs) c =
        let (ne, ox, oy) = go z xs c.4 in
        (ne, ground (arith, ox, (not-mem_of_middle z xs x ys c.3).1), oy)

first-append :
    (xs ys : List ℕ) (x h : ℕ)
    → h ≡ first (xs ++ (x ∷ ys))
    → x ∉ xs
    → (if h == x then first ys else h) ≡ first (xs ++ ys)
first-append [] ys x h e out = ground arith
first-append (z ∷ xs) ys x h e out = ground arith

last_of_null : (x : ℕ) (xs : List ℕ) → x ≢ 0 → x ∉ xs → last 0 xs ≢ x
last_of_null x [] ne out = λ e. ne (sym e)
last_of_null x (z ∷ xs) ne out = last-ne x z xs out

-- Removing an area from its list joins its neighbours, leaves every base and size as it was, and
-- clears the links of the removed area.
pub remove_from_list-IsList :
    (s : Areas) (x : ℕ) (xs ys : List ℕ)
    → IsList s (xs ++ (x ∷ ys))
    → IsList (remove_from_list x s) (xs ++ ys)
      × ((a : ℕ) → span (remove_from_list x s) a ≡ span s a)
      × (next_of (remove_from_list x s) x ≡ 0)
      × (prev_of (remove_from_list x s) x ≡ 0)
remove_from_list-IsList s x xs ys l =
    let (ne, ox, oy) = x-ne-neighbours s x xs ys l in
    let null = Chain-not_null (next_of s) (prev_of s) 0 (xs ++ (x ∷ ys)) l.chain in
    let nx = Chain-next (next_of s) (prev_of s) 0 x xs ys l.chain in
    let px = Chain-prev (next_of s) (prev_of s) 0 x xs ys l.chain in
    let nx_ne : next_of s x ≢ x = rw nx (first-ne x ys ne oy) in
    let px_ne : prev_of s x ≢ x = rw px (last_of_null x xs ne ox) in
    let (_, _, _, null') = not-mem_of_middle 0 xs x ys null in
    (
      record {
        head =
            head-remove s x ne
            ∙ ap (λ (n : ℕ). if s.head == x then n else s.head) nx
            ∙ first-append xs ys x s.head l.head ox;
        chain = Chain-unlink (next_of s) (prev_of s) _ _ 0 x xs ys l.chain null (λ a m.
            let na : a ≢ 0 = λ e. ne_of_mem 0 a (xs ++ ys) null' m (sym e) in
            let xa : x ≢ a = ne_of_mem x a (xs ++ ys) (not-mem-append x xs ys ox oy) m in
            (next_of-remove s x ne a na xa nx_ne px_ne, prev_of-remove s x ne a na xa nx_ne px_ne));
      },
      span-remove s x ne,
      (cleared s x ne).0,
      (cleared s x ne).1,
    )

-- The first area of `xs` with the key, or null.
unfoldable pub lookup_key : (Span → ℕ) → ℕ → Areas → List ℕ → ℕ
lookup_key key ptr s [] = 0
lookup_key key ptr s (x ∷ xs) = if key (span s x) == ptr then x else lookup_key key ptr s xs

-- The search over a list always returns, with the first area that has the key or with null.
pub find_area-lem :
    (key : Span → ℕ) (ptr : ℕ) (s : Areas) (fuel b : ℕ) (xs : List ℕ)
    → Chain (next_of s) (prev_of s) b xs
    → length xs < fuel
    → find_area key fuel (first xs) ptr s ≡ some (lookup_key key ptr s xs)
unfolding find_area lookup_key
find_area-lem key ptr s zero b xs c enough = absurd (omega arith)
find_area-lem key ptr s (suc fuel) b [] c enough = refl
find_area-lem key ptr s (suc fuel) b (x ∷ xs) c enough =
    if_ne x 0 _ _ c.0 ∙ rw (c.2, find_area-lem key ptr s fuel x xs c.4 (omega arith)) (ground arith)
