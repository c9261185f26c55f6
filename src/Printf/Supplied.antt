-- ===== src/Printf/Supplied.antt =====
-- A format with the arguments it asks for: `kprintf` comes to the end of it.
use destin_x.Prelude.{
  ℕ, zero, suc, ◌≡◌, refl, sym, inl, inr, Bool, true, false, not, some, List, [], ◌∷◌, arith, ◌==◌,
  if◌then◌else◌, Bool-cases,
}
use mathlib.Core.Bool.{true≢false}
use destin_x.Printf.{
  Argument, Printed, Output, Converted, check_and_flush, put, put_string, convert, format_loop,
  with_string, with_word, starts_lx,
}

-- The arguments that a conversion reads are there and of its kind; `k` is what follows.
abbrev pub takes_string : List Argument → (List Argument → Bool) → Bool
takes_string [] k = false
takes_string (Argument.word w ∷ args) k = false
takes_string (Argument.string s ∷ args) k = k args

abbrev pub takes_word : List Argument → (List Argument → Bool) → Bool
takes_word [] k = false
takes_word (Argument.string s ∷ args) k = false
takes_word (Argument.word w ∷ args) k = k args

abbrev pub consumes : (c : ℕ) (rest : List ℕ) → List Argument → (ℕ → List Argument → Bool) → Bool
consumes c rest args k =
    if c == b's'
    then takes_string args (k 0)
    else if c == b'd'
    then takes_word args (k 0)
    else if c == b'x'
    then takes_word args (k 0)
    else if c == b'l'
    then (if starts_lx rest then takes_word args (k 2) else k 0 args)
    else if c == b'p'
    then takes_word args (k 0)
    else if c == b'%'
    then k 0 args
    else k 0 args

-- The format does not end in a lone `%`, and every conversion has its argument.
unfoldable pub is_supplied : (skip : ℕ) → List ℕ → List Argument → Bool
is_supplied (suc skip) [] args = true
is_supplied (suc skip) (c ∷ cs) args = is_supplied skip cs args
is_supplied zero [] args = true
is_supplied zero (c ∷ []) args = not (c == b'%')
is_supplied zero (c ∷ d ∷ rest) args =
    let next = is_supplied zero (d ∷ rest) args in
    let converted = consumes d rest args (λ skip args'. is_supplied skip rest args') in
    if c == b'%' then converted else next

-- The conversion `x` goes on with what `t` asks for.
abbrev Passes : (ℕ → List Argument → Bool) → Converted Output → Bool → Type 0
Passes k x t =
    t ≡ true
    → (skip : ℕ) × (args : List Argument) × (o : Output) × (x ≡ some (skip, args, o))
      × (k skip args ≡ true)

pass_string :
    (k : ℕ → List Argument → Bool) (args : List Argument) (o : Output)
    → Passes k (with_string args (λ s. some (put_string s o))) (takes_string args (k 0))
pass_string k [] o e = absurd (true≢false (sym e))
pass_string k (Argument.word w ∷ args) o e = absurd (true≢false (sym e))
pass_string k (Argument.string s ∷ args) o e = (0, args, put_string s o, refl, e)

pass_word :
    (k : ℕ → List Argument → Bool) (skip : ℕ) (args : List Argument) (f : ℕ → Output)
    → Passes k (with_word skip args f) (takes_word args (k skip))
pass_word k skip [] f e = absurd (true≢false (sym e))
pass_word k skip (Argument.string s ∷ args) f e = absurd (true≢false (sym e))
pass_word k skip (Argument.word w ∷ args) f e = (skip, args, f w, refl, e)

pass_either :
    (k : ℕ → List Argument → Bool) (t : Bool) (x y : Converted Output) (a b : Bool)
    → Passes k x a
    → Passes k y b
    → Passes k (if t then x else y) (if t then a else b)
pass_either k true x y a b p q = p
pass_either k false x y a b p q = q

pass_convert :
    (k : ℕ → List Argument → Bool) (c : ℕ) (rest : List ℕ) (args : List Argument) (o : Output)
    → Passes k (convert c rest args o) (consumes c rest args k)
unfolding convert
pass_convert k c rest args o =
    let here : (o2 : Output) → Passes k (some (0, args, o2)) (k 0 args) =
      λ o2 e. (0, args, o2, refl, e) in
    pass_either k (c == b's') _ _ _ _ (pass_string k args o) (
      pass_either k (c == b'd') _ _ _ _ (pass_word k 0 args _) (
        pass_either k (c == b'x') _ _ _ _ (pass_word k 0 args _) (
          pass_either k (c == b'l') _ _ _ _
            (pass_either k (starts_lx rest) _ _ _ _ (pass_word k 2 args _) (here o))
            (pass_either k (c == b'p') _ _ _ _ (pass_word k 0 args _)
              (pass_either k (c == b'%') _ _ _ _ (here (put b'%' o)) (here o))))))

abbrev pub Done : Printed Output → Type 0
Done x = (o : Output) × (x ≡ Printed.done o)

pub loop-Done :
    (skip : ℕ) (format : List ℕ) (args : List Argument) (o : Output)
    → is_supplied skip format args ≡ true
    → Done (format_loop put check_and_flush convert skip format args o)
unfolding format_loop is_supplied
loop-Done (suc skip) [] args o e = (o, refl)
loop-Done (suc skip) (c ∷ cs) args o e = loop-Done skip cs args o e
loop-Done zero [] args o e = (o, refl)
loop-Done zero (c ∷ []) args o e =
    let plain : (c == b'%') ≡ false = ground (arith, e) in
    rw plain (put c (check_and_flush o), refl)
loop-Done zero (c ∷ d ∷ rest) args o e = elim (Bool-cases (c == b'%')) [
  | inl percent ↦
      let k = λ (skip : ℕ) (args' : List Argument). is_supplied skip rest args' in
      let (skip, args', o', at, more) =
        pass_convert k d rest args (check_and_flush o) (rw percent at e) in
      rw (percent, at) (loop-Done skip rest args' o' more)
  | inr plain ↦
      rw plain (loop-Done zero (d ∷ rest) args (put c (check_and_flush o)) (rw plain at e))
]
