-- ===== src/Str.antt =====
-- The string functions, libc/string.c, on a memory of bytes.
pub mod Copy
pub mod Compare
mod Tests
use destin_x.Prelude.{
  ℕ, zero, suc, ◌+◌, ◌-◌, ◌*◌, ◌/◌, ◌%◌, ◌^◌, ◌≤◌, ◌<◌, ◌≡◌, ◌≢◌, ◌↔◌, ◌⊎◌, refl, sym, ap, ◌∙◌, inl,
  inr, Bool, true, false, not, ◌&&◌, ◌||◌, Option, none, some, List, [], ◌∷◌, ◌++◌, map, arith, ltb,
  leb, ◌==◌, if◌then◌else◌, update, add64, sub64, Bool-cases, Option-cases, ==_iff, ==_self, ltb→lt,
  lt→ltb, length, get_elem?, length-append, bit_and, bit_or, bit_xor, has, ◌∈◌, ◌∉◌, has-append,
}

abbrev pub Memory : Type 0
Memory = ℕ → ℕ

-- The loop of `memset` with the byte it stores.
unfoldable pub memset_loop : ℕ → (ptr byte : ℕ) → Memory → Memory
memset_loop zero ptr byte mem = mem
memset_loop (suc count) ptr byte mem = memset_loop count (add64 ptr 1) byte (update mem ptr byte)

-- `char_val` is the unsigned value of the `int`.
unfoldable pub memset : (dest char_val count : ℕ) → Memory → ℕ × Memory
memset dest char_val count mem = (dest, memset_loop count dest (char_val % 2 ^ 8) mem)

unfoldable pub memcpy_loop : ℕ → (d s : ℕ) → Memory → Memory
memcpy_loop zero d s mem = mem
memcpy_loop (suc count) d s mem = memcpy_loop count (add64 d 1) (add64 s 1) (update mem d (mem s))

unfoldable pub memcpy : (dest src count : ℕ) → Memory → ℕ × Memory
memcpy dest src count mem = (dest, memcpy_loop count dest src mem)

-- The results of `memcmp`.
pub data Order : Type 0 where
  minus_one equal one : Order

-- The loop of `memcmp` from byte `i` on, with the rounds left.
unfoldable pub memcmp_loop : ℕ → (i p1 p2 : ℕ) → Memory → Order
memcmp_loop zero i p1 p2 mem = Order.equal
memcmp_loop (suc rounds) i p1 p2 mem =
    let rest = memcmp_loop rounds (i + 1) p1 p2 mem in
    let a = mem (add64 p1 i) in
    let b = mem (add64 p2 i) in
    if a == b then rest else if ltb a b then Order.minus_one else Order.one

unfoldable pub memcmp : (s1 s2 size : ℕ) → Memory → Order
memcmp s1 s2 size mem = memcmp_loop size 0 s1 s2 mem

-- The loop of `strlen`; `none` means that the fuel ran out. The length is returned as an `int`.
unfoldable pub strlen_loop : ℕ → (s len : ℕ) → Memory → Option ℕ
strlen_loop zero s len mem = none
strlen_loop (suc fuel) s len mem =
    let rest = strlen_loop fuel s (len + 1) mem in
    if mem (add64 s len) == 0 then some (len % 2 ^ 32) else rest

unfoldable pub strlen : ℕ → ℕ → Memory → Option ℕ
strlen fuel s mem = strlen_loop fuel s 0 mem
