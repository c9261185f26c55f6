-- ===== src/Printf/Same.antt =====
-- `kprintf` and `serial_print` write the same text.
use destin_x.Prelude.{
  ℕ, zero, suc, ◌%◌, ◌^◌, ◌≤◌, ◌<◌, ◌≡◌, ◌≢◌, ◌⊎◌, refl, sym, ap, ◌∙◌, inl, inr, Bool, true, false,
  not, ◌&&◌, Option, none, some, List, [], ◌∷◌, ◌++◌, arith, ltb, leb, ◌==◌, if◌then◌else◌,
  Bool-cases, length,
}
use mathlib.Core.List.{append-nil, append_assoc}
use destin_x.Printf.{
  Argument, Printed, Output, Converted, flush, check_and_flush, put, put_string, put_number,
  put_decimal, put_hex, put_digits, local_putnum, sign_extend, magnitude, is_negative, convert,
  format_loop, kprintf, empty_output, with_string, with_word, starts_lx, proceed, serial_put_number,
  serial_decimal, serial_hex, serial_long, serial_convert, serial_nested, serial_print, append_text,
  printed_text,
}
use destin_x.Printf.Number.{length-put_digits, take_all, put_digits_rounds}

abbrev pub concat : List (List ℕ) → List ℕ
concat [] = []
concat (c ∷ cs) = c ++ concat cs

-- All characters in order.
abbrev pub text : Output → List ℕ
text o = concat o.chunks ++ o.buf

concat-snoc : (cs : List (List ℕ)) (c : List ℕ) → concat (cs ++ (c ∷ [])) ≡ concat cs ++ c
concat-snoc [] c = append-nil c
concat-snoc (d ∷ cs) c = ap (λ (t : List ℕ). d ++ t) (concat-snoc cs c) ∙ sym (append_assoc d _ _)

text-flush : (o : Output) → text (flush o) ≡ text o
text-flush o = append-nil _ ∙ concat-snoc o.chunks o.buf

text-check : (o : Output) → text (check_and_flush o) ≡ text o
text-check o = elim (Bool-cases (leb 255 (length o.buf))) [
  | inl full ↦ rw full (text-flush o)
  | inr room ↦ rw room refl
]

text-put : (c : ℕ) (o : Output) → text (put c o) ≡ text o ++ (c ∷ [])
text-put c o = sym (append_assoc (concat o.chunks) _ _)

text-stored : (c : ℕ) (o : Output) → text (put c (check_and_flush o)) ≡ text o ++ (c ∷ [])
text-stored c o = text-put c (check_and_flush o) ∙ ap (λ (t : List ℕ). t ++ (c ∷ [])) (text-check o)

text-put_string : (s : List ℕ) (o : Output) → text (put_string s o) ≡ text o ++ s
unfolding put_string
text-put_string [] o = sym (append-nil _)
text-put_string (c ∷ cs) o =
    text-put_string cs (put c (check_and_flush o))
    ∙ ap (λ (t : List ℕ). t ++ cs) (text-stored c o)
    ∙ append_assoc (text o) _ _

text-put_number :
    (num base : ℕ) (o : Output) → text (put_number num base o) ≡ text o ++ local_putnum 255 num base
text-put_number num base o = elim (Bool-cases (ltb 221 (length o.buf))) [
  | inl full ↦
      rw full (ap (λ (t : List ℕ). t ++ local_putnum 255 num base) (concat-snoc o.chunks o.buf))
  | inr room ↦ rw room (sym (append_assoc (concat o.chunks) _ _))
]

-- The loops over the digits of `kprintf` and of `serial_print` agree on what fits the places of both.
putnum_same :
    (rounds num base : ℕ)
    → 2 ≤ base
    → num < base ^ rounds
    → num < base ^ 64
    → local_putnum 255 num base
      ≡ (if num == 0 then b'0' ∷ [] else (put_digits rounds num base []).1)
unfolding local_putnum
putnum_same rounds num base two few all = elim (Bool-cases (num == 0)) [
  | inl z ↦ rw z refl
  | inr nz ↦
      let len : length (put_digits 64 num base []).1 ≤ 255 =
        omega (arith, length-put_digits 64 num base 64 [] two all) in
      rw nz (
        take_all 255 (put_digits 64 num base []).1 len
        ∙ ap (λ (p : ℕ × List ℕ). p.1) (put_digits_rounds 64 rounds num base [] two all few))
]

number_same :
    (num : ℕ)
    → num < 2 ^ 32
    → (local_putnum 255 num 10 ≡ serial_put_number num 10)
      × (local_putnum 255 num 16 ≡ serial_put_number num 16)
unfolding serial_put_number
number_same num lt = (
  putnum_same 32 num 10 (omega arith) (omega (arith, lt)) (omega (arith, lt)),
  putnum_same 32 num 16 (omega arith) (omega (arith, lt)) (omega (arith, lt)),
)

magnitude_small : (w : ℕ) → w % 2 ^ 32 ≢ 2 ^ 31 → magnitude w < 2 ^ 31
magnitude_small w ne = elim (Bool-cases (is_negative w)) [
  | inl neg ↦ let ge : 2 ^ 31 ≤ w % 2 ^ 32 = ground (arith, neg) in rw neg (omega (arith, ge, ne))
  | inr pos ↦ let lt : w % 2 ^ 32 < 2 ^ 31 = ground (arith, pos) in rw pos (omega (arith, lt))
]

if_small : (m : ℕ) → m < 2 ^ 31 → sign_extend m ≡ m
if_small m lt = ground (arith, lt)

sign_text :
    (w : ℕ) (o : Output)
    → (is_negative w ≡ true) ⊎ (is_negative w ≡ false)
    → text (if is_negative w then put b'-' (check_and_flush o) else o)
      ≡ (if is_negative w then text o ++ (b'-' ∷ []) else text o)
sign_text w o (inl neg) = rw neg (text-stored b'-' o)
sign_text w o (inr pos) = rw pos refl

decimal_same :
    (w : ℕ) (o : Output) → w % 2 ^ 32 ≢ 2 ^ 31 → text (put_decimal w o) ≡ serial_decimal w (text o)
unfolding put_decimal
decimal_same w o ne =
    let m = magnitude w in
    let small : m < 2 ^ 31 = magnitude_small w ne in
    let same : sign_extend m ≡ m = if_small m small in
    let sign : Output = if is_negative w then put b'-' (check_and_flush o) else o in
    let signed : text sign ≡ (if is_negative w then text o ++ (b'-' ∷ []) else text o) =
      sign_text w o (Bool-cases (is_negative w)) in
    text-put_number (sign_extend m) 10 sign
    ∙ ap (λ (n : ℕ). text sign ++ local_putnum 255 n 10) same
    ∙ ap (λ (t : List ℕ). t ++ local_putnum 255 m 10) signed
    ∙ ap (λ (t : List ℕ). (if is_negative w then text o ++ (b'-' ∷ []) else text o) ++ t)
        ((number_same m (omega (arith, small))).0)

prefixed :
    (num : ℕ) (o : Output)
    → text (put_hex num o) ≡ text o ++ (b'0' ∷ b'x' ∷ local_putnum 255 num 16)
unfolding put_hex
prefixed num o =
    let o1 = put b'0' (check_and_flush o) in
    let o2 = put b'x' (check_and_flush o1) in
    let e : text o2 ≡ text o ++ (b'0' ∷ b'x' ∷ []) =
      text-stored b'x' o1
      ∙ ap (λ (t : List ℕ). t ++ (b'x' ∷ [])) (text-stored b'0' o)
      ∙ append_assoc (text o) _ _ in
    text-put_number num 16 o2
    ∙ ap (λ (t : List ℕ). t ++ local_putnum 255 num 16) e
    ∙ append_assoc (text o) _ _

hex_same : (num : ℕ) (o : Output) → num < 2 ^ 32 → text (put_hex num o) ≡ serial_hex num (text o)
unfolding put_hex
hex_same num o lt =
    prefixed num o ∙ ap (λ (t : List ℕ). text o ++ (b'0' ∷ b'x' ∷ t)) ((number_same num lt).1)

long_same : (num : ℕ) (o : Output) → num < 2 ^ 64 → text (put_hex num o) ≡ serial_long num (text o)
unfolding put_hex
long_same num o lt =
    prefixed num o
    ∙ ap (λ (t : List ℕ). text o ++ (b'0' ∷ b'x' ∷ t))
        (putnum_same 16 num 16 (omega arith) (omega (arith, lt)) (omega (arith, lt)))

abbrev pub no_percent : List ℕ → Bool
no_percent [] = true
no_percent (c ∷ cs) = not (c == b'%') && no_percent cs

-- A string without `%` is its own text for the nested call.
nested_plain :
    (nested : List ℕ → Option (List ℕ)) (s : List ℕ) (o : List ℕ)
    → no_percent s ≡ true
    → format_loop (λ c t. t ++ (c ∷ [])) (λ t. t) (serial_convert nested) 0 s [] o
      ≡ Printed.done (o ++ s)
unfolding format_loop
nested_plain nested [] o p = ap (λ (t : List ℕ). Printed.done t) (sym (append-nil o))
nested_plain nested (c ∷ []) o p = let e : (c == b'%') ≡ false = ground (arith, p) in rw e refl
nested_plain nested (c ∷ d ∷ rest) o p =
    let e : (c == b'%') ≡ false = ground (arith, p) in
    let p' : no_percent (d ∷ rest) ≡ true = ground (arith, p) in
    rw e (
      nested_plain nested (d ∷ rest) (o ++ (c ∷ [])) p'
      ∙ ap (λ (t : List ℕ). Printed.done t) (append_assoc o (c ∷ []) (d ∷ rest)))

serial_nested_plain : (s : List ℕ) → no_percent s ≡ true → serial_nested s ≡ some s
unfolding serial_nested
serial_nested_plain s p = ap printed_text (nested_plain (λ t. none) s [] p)

-- Strings hold no `%`, and no integer is the smallest `int`.
abbrev pub Plain : List Argument → Type 0
Plain [] = Unit {0}
Plain (Argument.string s ∷ args) = (no_percent s ≡ true) × Plain args
Plain (Argument.word w ∷ args) = (w % 2 ^ 32 ≢ 2 ^ 31) × Plain args

-- No `%p` in the format.
abbrev pub no_pointer : List ℕ → Bool
no_pointer [] = true
no_pointer (c ∷ []) = true
no_pointer (c ∷ d ∷ rest) = not ((c == b'%') && (d == b'p')) && no_pointer (d ∷ rest)

abbrev ConvertedSame : Converted Output → Converted (List ℕ) → Type 0
ConvertedSame none none = Unit {0}
ConvertedSame none (some y) = ⊥
ConvertedSame (some x) none = ⊥
ConvertedSame (some (skip, args, o)) (some (skip', args', t)) =
    (skip' ≡ skip) × (args' ≡ args) × (text o ≡ t) × Plain args

-- The same way to end, with the same text.
abbrev pub SameText : Printed Output → Printed (List ℕ) → Type 0
SameText (Printed.done o) (Printed.done t) = text o ≡ t
SameText (Printed.done o) Printed.overrun = ⊥
SameText (Printed.done o) Printed.bad_arguments = ⊥
SameText Printed.overrun (Printed.done t) = ⊥
SameText Printed.overrun Printed.overrun = Unit {0}
SameText Printed.overrun Printed.bad_arguments = ⊥
SameText Printed.bad_arguments (Printed.done t) = ⊥
SameText Printed.bad_arguments Printed.overrun = ⊥
SameText Printed.bad_arguments Printed.bad_arguments = Unit {0}

proceed_same :
    (x : Converted Output) (y : Converted (List ℕ))
    (k : ℕ → List Argument → Output → Printed Output)
    (k' : ℕ → List Argument → List ℕ → Printed (List ℕ))
    → ((skip : ℕ) (args : List Argument) (o : Output)
        → Plain args
        → SameText (k skip args o) (k' skip args (text o)))
    → ConvertedSame x y
    → SameText (proceed x k) (proceed y k')
proceed_same none none k k' all s = tt
proceed_same none (some y) k k' all s = elim s [ ]
proceed_same (some x) none k k' all s = elim s [ ]
proceed_same (some (skip, args, o)) (some (skip', args', t)) k k' all (a, b, c, pl) =
    rw (a, b, sym c) (all skip args o pl)

word_same :
    (skip : ℕ) (args : List Argument) (f : ℕ → Output) (g : ℕ → List ℕ)
    → Plain args
    → ((w : ℕ) → w % 2 ^ 32 ≢ 2 ^ 31 → text (f w) ≡ g w)
    → ConvertedSame (with_word skip args f) (with_word skip args g)
word_same skip [] f g pl same = tt
word_same skip (Argument.string s ∷ args) f g pl same = tt
word_same skip (Argument.word w ∷ args) f g (ne, pl) same = (refl, refl, same w ne, pl)

string_same :
    (args : List Argument) (o : Output) (t : List ℕ)
    → Plain args
    → text o ≡ t
    → ConvertedSame
        (with_string args (λ s. some (put_string s o)))
        (with_string args (λ s. append_text t (serial_nested s)))
string_same [] o t pl e = tt
string_same (Argument.word w ∷ args) o t pl e = tt
string_same (Argument.string s ∷ args) o t (plain, pl) e =
    rw (serial_nested_plain s plain)
      (refl, refl, text-put_string s o ∙ ap (λ (u : List ℕ). u ++ s) e, pl)

either_same :
    (b : Bool) (x y : Converted Output) (x' y' : Converted (List ℕ))
    → ConvertedSame x x'
    → ConvertedSame y y'
    → ConvertedSame (if b then x else y) (if b then x' else y')
either_same true x y x' y' a b = a
either_same false x y x' y' a b = b

skipped :
    (b : Bool)
    → b ≡ false
    → (x y : Converted Output) (x' y' : Converted (List ℕ)) → ConvertedSame y y'
    → ConvertedSame (if b then x else y) (if b then x' else y')
skipped b off x y x' y' same = rw off same

convert_same :
    (c : ℕ) (rest : List ℕ) (args : List Argument) (o : Output) (t : List ℕ)
    → (c == b'p') ≡ false
    → Plain args
    → text o ≡ t
    → ConvertedSame (convert c rest args o) (serial_convert serial_nested c rest args t)
unfolding convert serial_convert
convert_same c rest args o t np pl e = either_same (c == b's') _ _ _ _ (string_same args o t pl e) (
    either_same (c == b'd') _ _ _ _
      (word_same 0 args _ _ pl (λ w ne. decimal_same w o ne ∙ ap (serial_decimal w) e))
      (either_same (c == b'x') _ _ _ _
        (word_same 0 args _ _ pl
          (λ w ne. hex_same (w % 2 ^ 32) o (omega arith) ∙ ap (serial_hex (w % 2 ^ 32)) e))
        (either_same (c == b'l') _ _ _ _
          (either_same (starts_lx rest) _ _ _ _
            (word_same 2 args _ _ pl
              (λ w ne. long_same (w % 2 ^ 64) o (omega arith) ∙ ap (serial_long (w % 2 ^ 64)) e))
            (refl, refl, e, pl))
          (skipped (c == b'p') np _ _ _ _ (
            either_same (c == b'%') _ _ _ _
              (refl, refl, text-put b'%' o ∙ ap (λ (u : List ℕ). u ++ (b'%' ∷ [])) e, pl)
              (refl, refl, e, pl))))))

no_pointer_tail : (d : ℕ) (rest : List ℕ) → no_pointer (d ∷ rest) ≡ true → no_pointer rest ≡ true
no_pointer_tail d [] np = refl
no_pointer_tail d (e ∷ rest) np = ground (arith, np)

loop_same :
    (skip : ℕ) (format : List ℕ) (args : List Argument) (o : Output)
    → no_pointer format ≡ true
    → Plain args
    → SameText (format_loop put check_and_flush convert skip format args o) (
        format_loop
          (λ c t. t ++ (c ∷ []))
          (λ t. t)
          (serial_convert serial_nested)
          skip
          format
          args
          (text o))
unfolding format_loop
loop_same (suc skip) [] args o np pl = refl
loop_same (suc skip) (c ∷ []) args o np pl = loop_same skip [] args o refl pl
loop_same (suc skip) (c ∷ d ∷ rest) args o np pl =
    loop_same skip (d ∷ rest) args o (ground (arith, np)) pl
loop_same zero [] args o np pl = refl
loop_same zero (c ∷ []) args o np pl = elim (Bool-cases (c == b'%')) [
  | inl e ↦ rw e tt
  | inr e ↦ rw e (text-stored c o)
]
loop_same zero (c ∷ d ∷ rest) args o np pl =
    let next = loop_same zero (d ∷ rest) args (put c (check_and_flush o)) (ground (arith, np)) pl in
    let np' : no_pointer rest ≡ true = no_pointer_tail d rest (ground (arith, np)) in
    let further = λ (skip : ℕ) (args' : List Argument) (o' : Output) (pl' : Plain args').
      loop_same skip rest args' o' np' pl' in
    elim (Bool-cases (c == b'%')) [
      | inl e ↦ rw e (
          proceed_same _ _ _ _ further (
            convert_same d rest args (check_and_flush o) (text o) (ground (arith, np, e)) pl
              (text-check o)))
      | inr e ↦ rw (e, sym (text-stored c o)) next
    ]

-- For a format without `%p`, strings without `%` and integers other than the smallest `int`, `kprintf` hands to
-- `kring_write`, in its chunks one after the other, exactly the characters that `serial_print` writes to the
-- port; and either both return, or both run over the end of the format, or both lack an argument.
pub kprintf-serial_print :
    (format : List ℕ) (args : List Argument)
    → no_pointer format ≡ true
    → Plain args
    → SameText (kprintf format args) (serial_print format args)
unfolding kprintf serial_print
kprintf-serial_print format args np pl = loop_same 0 format args empty_output np pl
