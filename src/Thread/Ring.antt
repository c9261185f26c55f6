-- ===== src/Thread/Ring.antt =====
-- Circular lists through `next` and `prev` fields.
use destin_x.Prelude.{ℕ, ◌≡◌, ◌≢◌, ◌∙◌, List, [], ◌∷◌, ◌++◌, arith, ==_self, ◌∈◌, ◌∉◌}
use destin_x.Links.{last, last-ne}

abbrev pub Distinct : List ℕ → Type 0
Distinct [] = Unit {0}
Distinct (x ∷ xs) = (x ∉ xs) × Distinct xs

-- From `a` the `next` fields lead through `xs` to `b`, and the `prev` fields lead back.
abbrev pub Walk : (next prev : ℕ → ℕ) → ℕ → List ℕ → ℕ → Type 0
Walk n v a [] b = (n a ≡ b) × (v b ≡ a)
Walk n v a (x ∷ xs) b = ((n a ≡ x) × (v x ≡ a)) × Walk n v x xs b

pub Walk-last :
    (n v : ℕ → ℕ) (a : ℕ) (xs : List ℕ) (b : ℕ)
    → Walk n v a xs b
    → (v b ≡ last a xs) × (n (last a xs) ≡ b)
Walk-last n v a [] b w = (w.1, w.0)
Walk-last n v a (x ∷ xs) b w = Walk-last n v x xs b w.1

pub Walk-append :
    (n v : ℕ → ℕ) (a : ℕ) (xs : List ℕ) (b : ℕ) (ys : List ℕ) (c : ℕ)
    → Walk n v a xs b
    → Walk n v b ys c
    → Walk n v a (xs ++ (b ∷ ys)) c
Walk-append n v a [] b ys c w u = (w, u)
Walk-append n v a (x ∷ xs) b ys c w u = (w.0, Walk-append n v x xs b ys c w.1 u)

pub Walk-split :
    (n v : ℕ → ℕ) (a : ℕ) (xs : List ℕ) (b : ℕ) (ys : List ℕ) (c : ℕ)
    → Walk n v a (xs ++ (b ∷ ys)) c
    → Walk n v a xs b × Walk n v b ys c
Walk-split n v a [] b ys c w = (w.0, w.1)
Walk-split n v a (x ∷ xs) b ys c w = let (u, t) = Walk-split n v x xs b ys c w.1 in ((w.0, u), t)

-- Changing only the step out of the last node leads the walk elsewhere.
pub Walk-redirect :
    (n v n' v' : ℕ → ℕ) (a : ℕ) (xs : List ℕ) (b c : ℕ)
    → Walk n v a xs b
    → Distinct (a ∷ xs)
    → ((q : ℕ) → q ∈ (a ∷ xs) → last a xs ≢ q → n' q ≡ n q)
    → ((q : ℕ) → q ∈ xs → v' q ≡ v q)
    → n' (last a xs) ≡ c
    → v' c ≡ last a xs
    → Walk n' v' a xs c
Walk-redirect n v n' v' a [] b c w d same same' en ev = (en, ev)
Walk-redirect n v n' v' a (x ∷ xs) b c w d same same' en ev = (
  (same a (rw (==_self a)) (last-ne a x xs d.0) ∙ w.0.0, same' x (rw (==_self x)) ∙ w.0.1),
  Walk-redirect n v n' v' x xs b c w.1 d.1 (λ q i. same q (in_tail q i))
      (λ q i. same' q (in_tail' q i)) en ev,
)
  where
    in_tail : (q : ℕ) → q ∈ (x ∷ xs) → q ∈ (a ∷ x ∷ xs)
    in_tail q i = ground (arith, i)

    in_tail' : (q : ℕ) → q ∈ xs → q ∈ (x ∷ xs)
    in_tail' q i = ground (arith, i)
