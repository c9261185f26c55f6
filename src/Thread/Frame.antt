-- ===== src/Thread/Frame.antt =====
-- The stack of a new thread.
use destin_x.Prelude.{
  ℕ, ◌+◌, ◌-◌, ◌*◌, ◌/◌, ◌^◌, ◌≤◌, ◌<◌, ◌≡◌, ◌≢◌, ◌⊎◌, refl, sym, ◌∙◌, inl, inr, List, [], ◌∷◌,
  ◌++◌, arith, update, sub64, ==_self, length,
}
use mathlib.Core.Path.{subst}
use destin_x.Thread.Create.{push_all, registers, frame}

-- The words from `a` upwards.
abbrev pub IsStack : (ℕ → ℕ) → ℕ → List ℕ → Type 0
IsStack word a [] = Unit {0}
IsStack word a (x ∷ xs) = (word a ≡ x) × IsStack word (a + 8) xs

-- The words as they are pushed, in front of `ys`.
abbrev pub rev_append : List ℕ → List ℕ → List ℕ
rev_append [] ys = ys
rev_append (x ∷ xs) ys = rev_append xs (x ∷ ys)

IsStack-below :
    (word : ℕ → ℕ) (a x p : ℕ) (ys : List ℕ)
    → a < p
    → IsStack word p ys
    → IsStack (update word a x) p ys
IsStack-below word a x p [] lt s = tt
IsStack-below word a x p (y ∷ ys) lt s =
    (ground (arith, lt, s.0), IsStack-below word a x (p + 8) ys (omega (arith, lt)) s.1)

-- What pushing does: `n` words less than `top`, the pushed words, and nothing else.
abbrev Pushed : List ℕ → List ℕ → (top : ℕ) → (ℕ → ℕ) → ℕ × (ℕ → ℕ) → Type 0
Pushed xs ys top word out =
    (out.0 + 8 * length xs ≡ top)
    × IsStack out.1 out.0 (rev_append xs ys)
    × ((a : ℕ) → (a < out.0) ⊎ (top ≤ a) → out.1 a ≡ word a)

push_all-Pushed :
    (xs ys : List ℕ) (top : ℕ) (word : ℕ → ℕ)
    → 8 * length xs ≤ top
    → top < 2 ^ 64
    → IsStack word top ys
    → Pushed xs ys top word (push_all xs top word)
unfolding push_all
push_all-Pushed [] ys top word room small s = (omega arith, s, λ a out. refl)
push_all-Pushed (x ∷ xs) ys top word room small s =
    let at : sub64 top 8 ≡ top - 8 = omega (arith, room, small) in
    let above : top - 8 + 8 ≡ top = omega (arith, room) in
    let word1 = update word (top - 8) x in
    let older = IsStack-below word (top - 8) x top ys (omega (arith, room)) s in
    let newer : IsStack word1 (top - 8) (x ∷ ys) = (rw (==_self (top - 8)) refl, rw above older) in
    let (e, st, keeps) =
      push_all-Pushed xs (x ∷ ys) (top - 8) word1 (omega (arith, room)) (omega (arith, small))
        newer in
    subst (λ (p : ℕ). Pushed (x ∷ xs) ys top word (push_all xs p (update word p x))) (sym at)
      (
        omega (arith, e, room),
        st,
        λ a out. elim out [
          | inl below ↦
              let ne : top - 8 ≢ a = omega (arith, below, e) in
              keeps a (inl below) ∙ ground (arith, ne)
          | inr up ↦
              let ne : top - 8 ≢ a = omega (arith, up, room) in
              keeps a (inr (omega (arith, up))) ∙ ground (arith, ne)
        ],
      )

-- The frame of a new thread, from the registers up to the return address of its entry function.
abbrev pub frame_words : (clean ret ss cs entry_point : ℕ) → List ℕ
frame_words clean ret ss cs entry_point =
    registers ++ (entry_point ∷ cs ∷ 0x202 ∷ clean ∷ ss ∷ ret ∷ [])

-- The address of the return address: the highest word below `top` that is 8 above a multiple of 16.
abbrev pub clean_top : ℕ → ℕ
clean_top top = top / 16 * 16 - 8

pub frame_lem :
    (top ret ss cs entry_point : ℕ) (word : ℕ → ℕ)
    → 192 ≤ top
    → top < 2 ^ 64
    → ((frame top ret ss cs entry_point word).0 + 160 ≡ clean_top top)
      × IsStack
          (frame top ret ss cs entry_point word).1
          (frame top ret ss cs entry_point word).0
          (frame_words (clean_top top) ret ss cs entry_point)
      × ((a : ℕ)
          → (a < (frame top ret ss cs entry_point word).0) ⊎ (top ≤ a)
          → (frame top ret ss cs entry_point word).1 a ≡ word a)
unfolding frame
frame_lem top ret ss cs entry_point word room small =
    let base = top / 16 * 16 in
    let at : sub64 base 8 ≡ clean_top top = omega (arith, room, small) in
    let word1 = update word (clean_top top) ret in
    let xs = ss ∷ clean_top top ∷ 0x202 ∷ cs ∷ entry_point ∷ registers in
    let (e, st, keeps) =
      push_all-Pushed xs (ret ∷ []) (clean_top top) word1 (omega (arith, room))
        (omega (arith, small)) (rw (==_self (clean_top top)) refl, tt) in
    rw at (
      omega (arith, e),
      st,
      λ a out. elim out [
        | inl below ↦
            let ne : clean_top top ≢ a = omega (arith, below, e) in
            keeps a (inl below) ∙ ground (arith, ne)
        | inr up ↦
            let ne : clean_top top ≢ a = omega (arith, up, room) in
            keeps a (inr (omega (arith, up))) ∙ ground (arith, ne)
      ],
    )
