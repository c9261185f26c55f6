-- ===== src/Areas/Spec.antt =====
-- The area lists as lists of spans: first fit behind the first area.
use destin_x.Prelude.{ℕ, ◌≡◌, List, [], ◌∷◌, if◌then◌else◌}
use destin_x.Links.{first, Chain}
use destin_x.Areas.{Span, Areas, Direction, span, next_of, prev_of}

-- The list at the head is the chain of the areas `xs`.
pub record IsList (s : Areas) (xs : List ℕ) : Type 0 where
  pub head : s.head ≡ first xs
  pub chain : Chain (next_of s) (prev_of s) 0 xs

abbrev pub spans : Areas → List ℕ → List Span
spans s [] = []
spans s (x ∷ xs) = span s x ∷ spans s xs

module _ (d : Direction) (size : ℕ) where
  -- The spans behind the span `c` once one of the given size is added.
  unfoldable pub insert : Span → List Span → List Span
  insert c [] = (d.edge c, size) ∷ []
  insert c (n ∷ rest) = if d.fits c size n then (d.edge c, size) ∷ n ∷ rest else n ∷ insert n rest

  unfoldable pub add : List Span → List Span
  add [] = (d.start, size) ∷ []
  add (c ∷ rest) = c ∷ insert c rest
