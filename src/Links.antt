-- ===== src/Links.antt =====
-- Intrusive doubly linked lists: what the `next` and `prev` fields of the nodes must hold for
-- the list of node addresses `xs`, and what the two ways to change such a list do to it.
-- The null pointer is address 0. mm/vmalloc.c, mm/mmap.c, mm/stack.c, mm/slab.c and mm/buddy.c
-- keep their nodes in such lists.
use destin_x.Prelude.{
  ℕ, ◌≡◌, ◌≢◌, refl, sym, ◌∙◌, Bool, true, false, ◌||◌, List, [], ◌∷◌, ◌++◌, arith, ◌==◌,
  if◌then◌else◌, ==_self, has, ◌∈◌, ◌∉◌, has-append,
}
use mathlib.Core.Bool.{false≢true}

-- The first address of a list, or null.
abbrev pub first : List ℕ → ℕ
first [] = 0
first (x ∷ xs) = x

-- The last address of a list that follows the address `before`.
abbrev pub last : ℕ → List ℕ → ℕ
last before [] = before
last before (x ∷ xs) = last x xs

-- `xs` are distinct nodes, linked both ways in order, behind the node `before`.
abbrev pub Chain : (next prev : ℕ → ℕ) → ℕ → List ℕ → Type 0
Chain next prev before [] = Unit {0}
Chain next prev before (x ∷ xs) =
    (x ≢ 0) × (prev x ≡ before) × (next x ≡ first xs) × (x ∉ xs) × Chain next prev x xs

pub first-ne : (z : ℕ) (ys : List ℕ) → z ≢ 0 → z ∉ ys → first ys ≢ z
first-ne z [] ne out = ground (arith, ne)
first-ne z (y ∷ ys) ne out = ground arith

pub last-ne : (z w : ℕ) (xs : List ℕ) → z ∉ (w ∷ xs) → last w xs ≢ z
last-ne z w [] out = ground arith
last-ne z w (x ∷ xs) out = last-ne z x xs (ground arith)

pub not-mem-append : (z : ℕ) (xs ys : List ℕ) → z ∉ xs → z ∉ ys → z ∉ (xs ++ ys)
not-mem-append z xs ys a b = rw (has-append z xs ys, a, b)

pub not-mem_of_append : (z : ℕ) (xs ys : List ℕ) → z ∉ (xs ++ ys) → (z ∉ xs) × (z ∉ ys)
not-mem_of_append z xs ys out = ground (arith, has-append z xs ys)

pub not-mem_of_middle :
    (z : ℕ) (xs : List ℕ) (x : ℕ) (ys : List ℕ)
    → z ∉ (xs ++ (x ∷ ys))
    → (z ∉ xs) × (x ≢ z) × (z ∉ ys) × (z ∉ (xs ++ ys))
not-mem_of_middle z xs x ys out =
    let (a, b) = not-mem_of_append z xs (x ∷ ys) out in
    let c : z ∉ ys = ground (arith, b) in (a, ground (arith, b), c, not-mem-append z xs ys a c)

pub Chain-frame :
    (n v n' v' : ℕ → ℕ) (b : ℕ) (xs : List ℕ)
    → ((a : ℕ) → a ∈ xs → (n' a ≡ n a) × (v' a ≡ v a))
    → Chain n v b xs
    → Chain n' v' b xs
Chain-frame n v n' v' b [] same c = tt
Chain-frame n v n' v' b (x ∷ xs) same (ne, pv, nx, out, c) = (
  ne,
  ground (arith, same x),
  ground (arith, same x),
  out,
  Chain-frame n v n' v' x xs (λ a i. same a (ground arith)) c,
)

-- No node of a chain is null.
pub Chain-not_null : (n v : ℕ → ℕ) (b : ℕ) (xs : List ℕ) → Chain n v b xs → 0 ∉ xs
Chain-not_null n v b [] c = refl
Chain-not_null n v b (x ∷ xs) (ne, pv, nx, out, c) = ground (arith, ne, Chain-not_null n v x xs c)

pub Chain-prev :
    (n v : ℕ → ℕ) (b x : ℕ) (xs ys : List ℕ) → Chain n v b (xs ++ (x ∷ ys)) → v x ≡ last b xs
Chain-prev n v b x [] ys c = c.1
Chain-prev n v b x (y ∷ xs) ys c = Chain-prev n v y x xs ys c.4

pub Chain-next :
    (n v : ℕ → ℕ) (b x : ℕ) (xs ys : List ℕ) → Chain n v b (xs ++ (x ∷ ys)) → n x ≡ first ys
Chain-next n v b x [] ys c = c.2
Chain-next n v b x (y ∷ xs) ys c = Chain-next n v y x xs ys c.4

pub ne_of_mem : (b a : ℕ) (xs : List ℕ) → b ∉ xs → a ∈ xs → b ≢ a
ne_of_mem b a xs out i e = let i' : has b xs ≡ true = rw e i in false≢true (sym out ∙ i')

ne_of_not-mem : (b y : ℕ) (ys : List ℕ) → b ∉ (y ∷ ys) → b ≢ y
ne_of_not-mem b y ys out = ne_of_mem b y (y ∷ ys) out (rw (==_self y))

or_true : (b : Bool) → (b || true) ≡ true
or_true true = refl
or_true false = refl

pub if_ne {ℓ} : {A : Type ℓ} (a b : ℕ) (x y : A) → a ≢ b → (if a == b then x else y) ≡ y
if_ne a b x y ne = ground (arith, ne)

-- Unlinking `x`: its neighbours are joined, all other nodes keep their fields.
pub Chain-unlink :
    (n v n' v' : ℕ → ℕ) (b x : ℕ) (xs ys : List ℕ)
    → Chain n v b (xs ++ (x ∷ ys))
    → b ∉ (xs ++ (x ∷ ys))
    → ((a : ℕ)
        → a ∈ (xs ++ ys)
        → (n' a ≡ (if v x == a then n x else n a)) × (v' a ≡ (if n x == a then v x else v a)))
    → Chain n' v' b (xs ++ ys)
Chain-unlink n v n' v' b x [] [] c out same = tt
Chain-unlink n v n' v' b x [] (y ∷ ys) (ne, pv, nx, nin, (ne', pv', nx', nin', c)) out same =
    let (out', bx, bys, _) = not-mem_of_middle b [] x (y ∷ ys) out in
    let (sn, sv) = same y (rw (==_self y)) in
    (
      ne',
      sv ∙ rw (nx, ==_self y) pv,
      sn ∙ if_ne (v x) y (n x) (n y) (rw pv (ne_of_not-mem b y ys bys)) ∙ nx',
      nin',
      Chain-frame n v n' v' y ys
          (λ a i.
            let (tn, tv) = same a (rw i (or_true (y == a))) in
            (
              tn
                  ∙ if_ne (v x) a (n x) (n a)
                      (rw pv (ne_of_mem b a (y ∷ ys) bys (rw i (or_true (y == a))))),
              tv ∙ if_ne (n x) a (v x) (v a) (rw nx (ne_of_mem y a ys nin' i)),
            ))
          c,
    )
Chain-unlink n v n' v' b x (z ∷ []) ys (ne, pv, nx, nin, c) out same =
    let (nxs, nzx, nys, nin') = not-mem_of_middle z [] x ys nin in
    let fx = Chain-next n v z x [] ys c in
    let px = Chain-prev n v z x [] ys c in
    let (sn, sv) = same z (rw (==_self z)) in
    (
      ne,
      sv ∙ if_ne (n x) z (v x) (v z) (rw fx (first-ne z ys ne nys)) ∙ pv,
      sn ∙ rw (px, ==_self z) fx,
      nys,
      Chain-unlink n v n' v' z x [] ys c nin (λ a i. same a (rw i (or_true (z == a)))),
    )
Chain-unlink n v n' v' b x (z ∷ w ∷ xs) ys (ne, pv, nx, nin, c) out same =
    let (nxs, nzx, nys, nin') = not-mem_of_middle z (w ∷ xs) x ys nin in
    let pz = last-ne z w xs nxs in
    let fz = first-ne z ys ne nys in
    let px = Chain-prev n v z x (w ∷ xs) ys c in
    let fx = Chain-next n v z x (w ∷ xs) ys c in
    let (sn, sv) = same z (ground arith) in
    (
      ne,
      sv ∙ if_ne (n x) z (v x) (v z) (rw fx fz) ∙ pv,
      sn ∙ if_ne (v x) z (n x) (n z) (rw px pz) ∙ nx,
      nin',
      Chain-unlink n v n' v' z x (w ∷ xs) ys c nin (λ a i. same a (ground arith)),
    )

-- Linking the new node `x` in between `xs` and `ys`.
pub Chain-link :
    (n v n' v' : ℕ → ℕ) (b x : ℕ) (xs ys : List ℕ)
    → Chain n v b (xs ++ ys)
    → b ∉ (xs ++ ys)
    → x ≢ 0
    → x ∉ (xs ++ ys)
    → b ≢ x
    → ((a : ℕ)
        → a ∈ (xs ++ (x ∷ ys))
        → (n' a ≡ (if x == a then first ys else if last b xs == a then x else n a))
          × (v' a ≡ (if x == a then last b xs else if first ys == a then x else v a)))
    → Chain n' v' b (xs ++ (x ∷ ys))
Chain-link n v n' v' b x [] [] c out ne new bx same =
    (ne, ground (arith, same x), ground (arith, same x), refl, tt)
Chain-link n v n' v' b x [] (y ∷ ys) (ne', pv', nx', nin', c) out ne new bx same = (
  ne,
  ground (arith, same x),
  ground (arith, same x),
  new,
  (
    ne',
    ground (arith, same y),
    ground (arith, same y),
    nin',
    Chain-frame n v n' v' y ys (λ a i. ground (arith, same a)) c,
  ),
)
Chain-link n v n' v' b x (z ∷ []) ys (ne', pv', nx', nin', c) out ne new bx same = (
  ne',
  ground (arith, same z, first-ne z ys),
  ground (arith, same z),
  ground arith,
  Chain-link n v n' v' z x [] ys c nin' ne (ground arith) (ground arith)
      (λ a i. same a (ground arith)),
)
Chain-link n v n' v' b x (z ∷ w ∷ xs) ys (ne', pv', nx', nin', c) out ne new bx same =
    let (nxs, nys) = not-mem_of_append z (w ∷ xs) ys nin' in
    let pz = last-ne z w xs nxs in
    let fz = first-ne z ys ne' nys in
    let xz : x ≢ z = ground (arith, new) in
    let (sn, sv) = same z (ground arith) in
    (
      ne',
      sv ∙ if_ne x z _ _ xz ∙ if_ne (first ys) z _ _ fz ∙ pv',
      sn ∙ if_ne x z _ _ xz ∙ if_ne (last w xs) z _ _ pz ∙ nx',
      not-mem-append z (w ∷ xs) (x ∷ ys) nxs (ground (arith, xz, nys)),
      Chain-link n v n' v' z x (w ∷ xs) ys c nin' ne (ground (arith, new)) (ground (arith, new))
          (λ a i. same a (ground arith)),
    )
