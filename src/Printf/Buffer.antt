-- ===== src/Printf/Buffer.antt =====
-- `kprintf` never stores behind the end of `local_buf`.
use destin_x.Prelude.{
  ℕ, zero, suc, ◌-◌, ◌%◌, ◌^◌, ◌≤◌, ◌<◌, ◌≡◌, inl, inr, Bool, true, false, none, some, List, [],
  ◌∷◌, ◌++◌, arith, ltb, leb, ◌==◌, if◌then◌else◌, Bool-cases, length, length-append,
}
use destin_x.Printf.{
  Argument, Printed, Output, Converted, flush, check_and_flush, put, put_string, put_number,
  put_decimal, put_hex, local_putnum, sign_extend, magnitude, is_negative, convert, format_loop,
  kprintf, empty_output, with_string, with_word, starts_lx, proceed,
}
use destin_x.Printf.Supplied.{is_supplied, loop-Done}
use destin_x.Printf.Number.{local_putnum_lem}

-- Every string is shorter than the buffer.
abbrev pub Fit : List (List ℕ) → Type 0
Fit [] = Unit {0}
Fit (c ∷ cs) = (length c < 256) × Fit cs

abbrev pub Bounded : Output → Type 0
Bounded o = Fit o.chunks × (length o.buf < 256)

Fit-snoc : (cs : List (List ℕ)) (c : List ℕ) → Fit cs → length c < 256 → Fit (cs ++ (c ∷ []))
Fit-snoc [] c f lt = (lt, tt)
Fit-snoc (d ∷ cs) c f lt = (f.0, Fit-snoc cs c f.1 lt)

flush-Bounded : (o : Output) → Bounded o → Bounded (flush o)
flush-Bounded o b = (Fit-snoc o.chunks o.buf b.0 b.1, omega arith)

check-Bounded :
    (o : Output) → Bounded o → Bounded (check_and_flush o) × (length (check_and_flush o).buf < 255)
check-Bounded o b = elim (Bool-cases (leb 255 (length o.buf))) [
  | inl full ↦ rw full (flush-Bounded o b, omega arith)
  | inr room ↦ rw room (b, ground (arith, room))
]

put-Bounded : (c : ℕ) (o : Output) → Bounded o → length o.buf < 255 → Bounded (put c o)
put-Bounded c o b lt = (b.0, omega (arith, length-append o.buf (c ∷ []), lt))

stored-Bounded : (c : ℕ) (o : Output) → Bounded o → Bounded (put c (check_and_flush o))
stored-Bounded c o b = let (b', lt) = check-Bounded o b in put-Bounded c (check_and_flush o) b' lt

put_string-Bounded : (s : List ℕ) (o : Output) → Bounded o → Bounded (put_string s o)
unfolding put_string
put_string-Bounded [] o b = b
put_string-Bounded (c ∷ cs) o b =
    put_string-Bounded cs (put c (check_and_flush o)) (stored-Bounded c o b)

put_number-Bounded :
    (num base k : ℕ) (o : Output)
    → 2 ≤ base
    → base ≤ 16
    → num < 2 ^ 64
    → 1 ≤ k
    → num < base ^ k
    → k ≤ 34
    → Bounded o
    → Bounded (put_number num base o)
put_number-Bounded num base k o two le lt pos small few b =
    let len = (local_putnum_lem 255 num base k two le lt pos small (omega arith)).1 in
    elim (Bool-cases (ltb 221 (length o.buf))) [
      | inl full ↦ rw full (Fit-snoc o.chunks o.buf b.0 b.1, omega (arith, len, few))
      | inr room ↦ rw room (
        b.0,
        omega (
          arith,
          len,
          few,
          length-append o.buf (local_putnum 255 num base),
          not_more (length o.buf) room,
        ),
      )
    ]
  where
    not_more : (n : ℕ) → ltb 221 n ≡ false → n ≤ 221
    not_more n h = ground (arith, h)

magnitude-lt : (w : ℕ) → sign_extend (magnitude w) < 2 ^ 64
magnitude-lt w = elim (Bool-cases (is_negative w)) [
  | inl neg ↦ rw neg (extended ((2 ^ 32 - w % 2 ^ 32) % 2 ^ 32) (omega arith))
  | inr pos ↦ rw pos (extended (w % 2 ^ 32) (omega arith))
]
  where
    extended : (i : ℕ) → i < 2 ^ 32 → sign_extend i < 2 ^ 64
    extended i lt = elim (Bool-cases (leb (2 ^ 31) i)) [
      | inl e ↦ rw e (omega arith)
      | inr e ↦ rw e (omega arith)
    ]

put_decimal-Bounded : (w : ℕ) (o : Output) → Bounded o → Bounded (put_decimal w o)
unfolding put_decimal
put_decimal-Bounded w o b =
    let num = sign_extend (magnitude w) in
    let lt : num < 2 ^ 64 = magnitude-lt w in
    let few : num < 10 ^ 20 = omega (arith, lt) in
    elim (Bool-cases (is_negative w)) [
      | inl neg ↦
          put_number-Bounded num 10 20 (if is_negative w then put b'-' (check_and_flush o) else o)
            (omega arith) (omega arith) lt (omega arith) few (omega arith)
            (rw neg (stored-Bounded b'-' o b))
      | inr pos ↦
          put_number-Bounded num 10 20 (if is_negative w then put b'-' (check_and_flush o) else o)
            (omega arith) (omega arith) lt (omega arith) few (omega arith) (rw pos b)
    ]

put_hex-Bounded : (num : ℕ) (o : Output) → num < 2 ^ 64 → Bounded o → Bounded (put_hex num o)
unfolding put_hex
put_hex-Bounded num o lt b =
    put_number-Bounded num 16 16 _ (omega arith) (omega arith) lt (omega arith) (omega (arith, lt))
      (omega arith) (stored-Bounded b'x' _ (stored-Bounded b'0' o b))

abbrev ConvertedOk : Converted Output → Type 0
ConvertedOk none = Unit {0}
ConvertedOk (some (skip, args, o)) = Bounded o

with_word-Bounded :
    (skip : ℕ) (args : List Argument) (f : ℕ → Output)
    → ((w : ℕ) → Bounded (f w))
    → ConvertedOk (with_word skip args f)
with_word-Bounded skip [] f all = tt
with_word-Bounded skip (Argument.string s ∷ args) f all = tt
with_word-Bounded skip (Argument.word w ∷ args) f all = all w

with_string-Bounded :
    (args : List Argument) (o : Output)
    → Bounded o
    → ConvertedOk (with_string args (λ s. some (put_string s o)))
with_string-Bounded [] o b = tt
with_string-Bounded (Argument.string s ∷ args) o b = put_string-Bounded s o b
with_string-Bounded (Argument.word w ∷ args) o b = tt

-- One test of the `switch`.
either :
    (t : Bool) (x y : Converted Output)
    → ConvertedOk x
    → ConvertedOk y
    → ConvertedOk (if t then x else y)
either true x y a b = a
either false x y a b = b

convert-Bounded :
    (c : ℕ) (rest : List ℕ) (args : List Argument) (o : Output)
    → Bounded o
    → length o.buf < 255
    → ConvertedOk (convert c rest args o)
unfolding convert
convert-Bounded c rest args o b lt = either (c == b's') _ _ (with_string-Bounded args o b) (
    either (c == b'd') _ _ (with_word-Bounded 0 args _ (λ w. put_decimal-Bounded w o b)) (
      either (c == b'x') _ _
        (with_word-Bounded 0 args _ (λ w. put_hex-Bounded (w % 2 ^ 32) o (omega arith) b))
        (either (c == b'l') _ _
          (either (starts_lx rest) _ _
            (with_word-Bounded 2 args _ (λ w. put_hex-Bounded (w % 2 ^ 64) o (omega arith) b)) b)
          (either (c == b'p') _ _
            (with_word-Bounded 0 args _ (λ w. put_hex-Bounded (w % 2 ^ 64) o (omega arith) b))
            (either (c == b'%') _ _ (put-Bounded b'%' o b lt) b)))))

-- What a call that returns leaves is bounded.
abbrev PrintedOk : Printed Output → Type 0
PrintedOk (Printed.done o) = Bounded o
PrintedOk Printed.overrun = Unit {0}
PrintedOk Printed.bad_arguments = Unit {0}

proceed-Bounded :
    (x : Converted Output) (k : ℕ → List Argument → Output → Printed Output)
    → ((skip : ℕ) (args : List Argument) (o : Output) → Bounded o → PrintedOk (k skip args o))
    → ConvertedOk x
    → PrintedOk (proceed x k)
proceed-Bounded none k all b = tt
proceed-Bounded (some (skip, args, o)) k all b = all skip args o b

loop-Bounded :
    (skip : ℕ) (format : List ℕ) (args : List Argument) (o : Output)
    → Bounded o
    → PrintedOk (format_loop put check_and_flush convert skip format args o)
unfolding format_loop
loop-Bounded (suc skip) [] args o b = b
loop-Bounded (suc skip) (c ∷ cs) args o b = loop-Bounded skip cs args o b
loop-Bounded zero [] args o b = b
loop-Bounded zero (c ∷ []) args o b = elim (Bool-cases (c == b'%')) [
  | inl e ↦ rw e tt
  | inr e ↦ rw e (stored-Bounded c o b)
]
loop-Bounded zero (c ∷ d ∷ rest) args o b =
    let next =
      loop-Bounded zero (d ∷ rest) args (put c (check_and_flush o)) (stored-Bounded c o b) in
    let further = λ (skip : ℕ) (args' : List Argument) (o' : Output) (ok : Bounded o').
      loop-Bounded skip rest args' o' ok in
    let (b', lt) = check-Bounded o b in
    elim (Bool-cases (c == b'%')) [
      | inl e ↦ rw e (
          proceed-Bounded (convert d rest args (check_and_flush o)) _ further
            (convert-Bounded d rest args (check_and_flush o) b' lt))
      | inr e ↦ rw e next
    ]

-- For a format that does not end in a lone `%` and arguments that are there and of the kind each conversion asks for,
-- `kprintf` returns, and it keeps its index below the 256 places of `local_buf`: each string it hands to
-- `kring_write` has at most 255 characters.
pub kprintf-Bounded :
    (format : List ℕ) (args : List Argument)
    → is_supplied 0 format args ≡ true
    → (o : Output) × (kprintf format args ≡ Printed.done o) × Bounded o
unfolding kprintf
kprintf-Bounded format args e =
    let (o, at) = loop-Done 0 format args empty_output e in
    let bounded = loop-Bounded 0 format args empty_output (tt, omega arith) in
    let here : PrintedOk (Printed.done o) = rw at at bounded in (o, at, here)
