-- ===== src/Ahci/Command.antt =====
-- What a command of the driver tells the disk.
use destin_x.Prelude.{
  ℕ, zero, suc, ◌+◌, ◌-◌, ◌*◌, ◌%◌, ◌^◌, ◌≤◌, ◌<◌, ◌≡◌, refl, ap, ◌∙◌, inl, inr, Bool, true, false,
  ◌&&◌, arith, ltb, leb, ◌==◌, if◌then◌else◌, update, Bool-cases, ==_iff,
}
use destin_x.Ahci.{
  Direction, PrdtEntry, Fis, chunk_size, entry_of, zero_entry, prdt_loop, command_of, fis_of,
  table_of,
}

-- The memory that an entry describes: its address, and the length, which is stored less one.
abbrev pub address_of : PrdtEntry → ℕ
address_of e = e.dba + e.dbau * 2 ^ 32

abbrev pub bytes_of : PrdtEntry → ℕ
bytes_of e = e.dbc + 1

-- The bytes of the first `n` entries.
abbrev pub transferred : ℕ → (ℕ → PrdtEntry) → ℕ
transferred zero prdt = 0
transferred (suc n) prdt = transferred n prdt + bytes_of (prdt n)

-- The block address and the number of sectors of a command.
abbrev pub lba_of : Fis → ℕ
lba_of f =
    f.lba0 + f.lba1 * 2 ^ 8 + f.lba2 * 2 ^ 16 + f.lba3 * 2 ^ 24 + f.lba4 * 2 ^ 32 + f.lba5 * 2 ^ 40

abbrev pub count_of : Fis → ℕ
count_of f = f.countl + f.counth * 2 ^ 8

less-chunk : (left : ℕ) → left - chunk_size left ≡ left - 4096
unfolding chunk_size
less-chunk left = ground arith

later_entry :
    (rounds i n left : ℕ) (pages : ℕ → ℕ) (prdt : ℕ → PrdtEntry) (entry : PrdtEntry) (q : ℕ)
    → left - chunk_size left ≡ left - 4096
    → (i == q) ≡ false
    → (if leb (i + 1) q && ltb q (i + 1 + rounds)
        then entry_of
            (pages q)
            (chunk_size (left - chunk_size left - 4096 * (q - (i + 1))))
            (q == n - 1)
        else update prdt i entry q)
      ≡ (if leb i q && ltb q (i + suc rounds)
          then entry_of (pages q) (chunk_size (left - 4096 * (q - i))) (q == n - 1)
          else prdt q)
later_entry rounds i n left pages prdt entry q less other = elim (Bool-cases (leb (i + 1) q)) [
  | inl after ↦
      let lt : i < q = ground (arith, after) in
      let same : left - chunk_size left - 4096 * (q - (i + 1)) ≡ left - 4096 * (q - i) =
        omega (arith, less, lt) in
      ground (arith, after, same, other)
  | inr before ↦ ground (arith, before, other)
]

prdt_loop-at :
    (rounds i n left : ℕ) (pages : ℕ → ℕ) (prdt : ℕ → PrdtEntry) (q : ℕ)
    → prdt_loop rounds i n left pages prdt q ≡ (
        if leb i q && ltb q (i + rounds)
        then entry_of (pages q) (chunk_size (left - 4096 * (q - i))) (q == n - 1)
        else prdt q)
unfolding prdt_loop
prdt_loop-at zero i n left pages prdt q = ground arith
prdt_loop-at (suc rounds) i n left pages prdt q =
    let entry = entry_of (pages i) (chunk_size left) (i == n - 1) in
    let ih = prdt_loop-at rounds (i + 1) n (left - chunk_size left) pages (update prdt i entry) q in
    let less = less-chunk left in
    elim (Bool-cases (i == q)) [
      | inl same ↦
          let iq = (==_iff i q).0 same in
          let first : left - 4096 * (q - i) ≡ left = omega (arith, iq) in
          let moved : entry ≡ entry_of (pages q) (chunk_size left) (q == n - 1) =
            ap (λ (j : ℕ). entry_of (pages j) (chunk_size left) (j == n - 1)) iq in
          ih ∙ ground (arith, same, first, moved)
      | inr other ↦ ih ∙ later_entry rounds i n left pages prdt entry q less other
    ]

chunk_size-le : (left : ℕ) → chunk_size left ≤ left
unfolding chunk_size
chunk_size-le left = ground arith

bytes-entry_of :
    (page left : ℕ) (b : Bool)
    → 0 < left
    → bytes_of (entry_of page (chunk_size left) b) ≡ chunk_size left
unfolding entry_of chunk_size
bytes-entry_of page left b pos = elim (Bool-cases (ltb 4096 left)) [
  | inl more ↦ rw more refl
  | inr less ↦ let most : left ≤ 4096 = ground (arith, less) in rw less (omega (arith, pos, most))
]

module _ (n sec : ℕ) (pages : ℕ → ℕ) (some_left : 8 * (n - 1) < sec) (covers : sec ≤ 8 * n)
    (word : sec < 2 ^ 16) where
  -- The entry of page `i`.
  piece : ℕ → PrdtEntry
  piece i = prdt_loop n 0 n (sec * 512 % 2 ^ 32) pages (λ j. zero_entry) i

  piece-at :
      (i : ℕ)
      → i < n
      → piece i ≡ entry_of (pages i) (chunk_size (sec * 512 - 4096 * i)) (i == n - 1)
  unfolding piece
  piece-at i small =
      let no_wrap : sec * 512 % 2 ^ 32 ≡ sec * 512 = omega (arith, word) in
      let at = prdt_loop-at n 0 n (sec * 512) pages (λ j. zero_entry) i in
      let here : (leb 0 i && ltb i (0 + n)) ≡ true = ground (arith, small) in
      let same : i - 0 ≡ i = omega arith in
      ap (λ (t : ℕ). prdt_loop n 0 n t pages (λ j. zero_entry) i) no_wrap
      ∙ at
      ∙ rw (here, same) refl

  bytes-at : (i : ℕ) → i < n → bytes_of (piece i) ≡ chunk_size (sec * 512 - 4096 * i)
  bytes-at i small =
      let pos : 0 < sec * 512 - 4096 * i = omega (arith, small, some_left) in
      rw (piece-at i small) (bytes-entry_of (pages i) (sec * 512 - 4096 * i) (i == n - 1) pos)

  transferred-at : (k : ℕ) → k ≤ n → transferred k piece + (sec * 512 - 4096 * k) ≡ sec * 512
  transferred-at zero le = omega arith
  transferred-at (suc k) le =
      let here = bytes-at k le in
      let before = transferred-at k (omega (arith, le)) in
      let less = less-chunk (sec * 512 - 4096 * k) in
      let most = chunk_size-le (sec * 512 - 4096 * k) in omega (arith, here, before, less, most)

address-entry_of :
    (page chunk : ℕ) (b : Bool) → page < 2 ^ 64 → address_of (entry_of page chunk b) ≡ page
unfolding entry_of
address-entry_of page chunk b word = omega (arith, word)

last-entry_of : (page chunk : ℕ) (b : Bool) → (entry_of page chunk b).i ≡ (if b then 1 else 0)
unfolding entry_of
last-entry_of page chunk b = refl

fis_of_lem :
    (d : Direction) (lba sec : ℕ)
    → lba < 2 ^ 48
    → sec < 2 ^ 16
    → (lba_of (fis_of d lba sec) ≡ lba)
      × (count_of (fis_of d lba sec) ≡ sec)
      × ((fis_of d lba sec).command ≡ command_of d)
unfolding fis_of
fis_of_lem d lba sec small word = (omega (arith, small), omega (arith, word), refl)

-- The command for `sec` sectors from block `lba` on, with just as many pages as they need: its
-- block address, its number of sectors and its code are those asked for; the entry of each page holds
-- its address, the bytes that are left or a whole page, and a mark on the last one only; and the lengths
-- add up to the bytes of the sectors. Blocks are below 2^48, sectors below 2^16, and pages below 2^64.
pub table_of_lem :
    (d : Direction) (lba sec : ℕ) (pages : ℕ → ℕ) (n : ℕ)
    → lba < 2 ^ 48
    → sec < 2 ^ 16
    → 8 * (n - 1) < sec
    → sec ≤ 8 * n
    → ((i : ℕ) → pages i < 2 ^ 64)
    → (lba_of (table_of d lba sec pages n).cfis ≡ lba)
      × (count_of (table_of d lba sec pages n).cfis ≡ sec)
      × ((table_of d lba sec pages n).cfis.command ≡ command_of d)
      × (transferred n (table_of d lba sec pages n).prdt ≡ sec * 512)
      × ((i : ℕ)
          → i < n
          → (address_of ((table_of d lba sec pages n).prdt i) ≡ pages i)
            × (bytes_of ((table_of d lba sec pages n).prdt i) ≡ chunk_size (sec * 512 - 4096 * i))
            × (((table_of d lba sec pages n).prdt i).i ≡ (if i == n - 1 then 1 else 0)))
unfolding table_of piece
table_of_lem d lba sec pages n small word some_left covers phys =
    let (at, count, code) = fis_of_lem d lba sec small word in
    let all = transferred-at n sec pages some_left covers word n (omega arith) in
    (
      at,
      count,
      code,
      omega (arith, all, covers),
      λ i lt.
          let e = piece-at n sec pages some_left covers word i lt in
          let chunk = chunk_size (sec * 512 - 4096 * i) in
          (
            ap address_of e ∙ address-entry_of (pages i) chunk (i == n - 1) (phys i),
            bytes-at n sec pages some_left covers word i lt,
            ap (λ (x : PrdtEntry). x.i) e ∙ last-entry_of (pages i) chunk (i == n - 1),
          ),
    )
