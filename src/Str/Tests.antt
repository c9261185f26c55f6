-- ===== src/Str/Tests.antt =====
-- A memory that holds "ab" at 16, "ac" at 32, and zeros elsewhere.
use destin_x.Prelude.{ℕ, ◌+◌, ◌-◌, ◌≡◌, refl, inl, arith, ◌==◌, if◌then◌else◌}
use destin_x.Str.{Memory, memset, memcpy, memcmp, strlen}
use destin_x.Str
use destin_x.Str.Copy.{within, memcpy_lem}
use destin_x.Str.Compare.{Compared, memcmp_lem}

abbrev words : Memory
words = λ a.
    if a == 16
    then 97
    else if a == 17
    then 98
    else if a == 32
    then 97
    else if a == 33
    then 99
    else 0

smaller : memcmp 16 32 3 words ≡ Str.Order.minus_one
unfolding memcmp Str.memcmp_loop
smaller = refl

memcpy_lem_example :
    ((memcpy 17 32 3 words).0 ≡ 17)
    × ((a : ℕ)
        → (memcpy 17 32 3 words).1 a ≡ (if within 17 3 a then words (32 + (a - 17)) else words a))
memcpy_lem_example = memcpy_lem 17 32 3 words (omega arith) (omega arith) (inl (omega arith))

memcmp_lem_example : Compared words 16 32 0 3 (memcmp 16 32 3 words)
memcmp_lem_example = memcmp_lem 16 32 3 words (omega arith) (omega arith)
