-- ===== src/Kring/Tests.antt =====
-- Rings of their full size, empty or overrun.
use destin_x.Prelude.{
  ℕ, zero, suc, ◌+◌, ◌≡◌, refl, true, some, List, [], ◌∷◌, ◌++◌, arith, ◌==◌, if◌then◌else◌, length,
}
use destin_x.Kring.{Ring, Kring, kring_write, kring_flush_to_screen, kring_flush_to_rbuf, drop_mark}
use destin_x.Kring.Queue.{Stored, Holds}
use destin_x.Kring.Screen.{kring_flush_to_screen-kring_write, kring_flush_to_screen_late}
use destin_x.Kring.Lines.{kring_flush_to_rbuf_lem}

abbrev fresh : Ring
fresh = record { present = true; entries = λ i. record { c = 0; ready = 0 }; head = 0; tail = 0 }

abbrev rings : Kring
rings = record { write_kring = fresh; read_kring = fresh }

abbrev hello : List ℕ
hello = b'h' ∷ b'i' ∷ []

kring_flush_to_screen-kring_write_example :
    (k' : Kring) × (kring_flush_to_screen 3 (kring_write hello 1 rings) [] ≡ some (k', hello))
    × (k'.write_kring.tail ≡ k'.write_kring.head)
    × (k'.read_kring ≡ rings.read_kring)
kring_flush_to_screen-kring_write_example =
    kring_flush_to_screen-kring_write 3 rings [] hello [] refl
      (record { fits = omega arith; ends = refl; small = omega arith; stored = tt }) (omega arith)
      (omega arith) (omega arith)

-- Every place of the write ring holds a dot, and the reader is 5000 characters behind.
abbrev dots : Kring
dots = record {
  write_kring = record {
    present = true;
    entries = λ i. record { c = b'.'; ready = 1 };
    head = 5000;
    tail = 0;
  };
  read_kring = fresh;
}

dot_line : ℕ → List ℕ
dot_line zero = []
dot_line (suc n) = b'.' ∷ dot_line n

length-dot_line : (n : ℕ) → length (dot_line n) ≡ n
unfolding dot_line
length-dot_line zero = refl
length-dot_line (suc n) = omega (arith, length-dot_line n)

dots-Stored : (n p : ℕ) → Stored dots.write_kring.entries p (dot_line n)
unfolding dot_line
dots-Stored zero p = tt
dots-Stored (suc n) p = (refl, dots-Stored n (p + 1))

kring_flush_to_screen_late_example :
    (k' : Kring) × (kring_flush_to_screen 5000 dots [] ≡ some (k', drop_mark ++ dot_line 4096))
    × (k'.write_kring.tail ≡ k'.write_kring.head)
    × (k'.read_kring ≡ dots.read_kring)
kring_flush_to_screen_late_example =
    kring_flush_to_screen_late 5000 dots (dot_line 4096) [] refl (length-dot_line 4096)
      (omega arith) (omega arith) (dots-Stored 4096 904) (omega arith)

-- A line and the beginning of the next one wait in the read ring.
abbrev lines : Kring
lines = record {
  write_kring = fresh;
  read_kring = record {
    present = true;
    entries = λ i. record { c = if i == 0 then b'h' else if i == 1 then 10 else b'x'; ready = 1 };
    head = 3;
    tail = 0;
  };
}

kring_flush_to_rbuf_lem_example :
    ((kring_flush_to_rbuf 100 lines).0 ≡ b'h' ∷ 10 ∷ [])
    × Holds (kring_flush_to_rbuf 100 lines).1.read_kring (b'x' ∷ [])
    × ((kring_flush_to_rbuf 100 lines).1.write_kring ≡ lines.write_kring)
kring_flush_to_rbuf_lem_example =
    kring_flush_to_rbuf_lem 100 lines (b'h' ∷ []) (b'x' ∷ [])
      (record {
        fits = omega arith;
        ends = refl;
        small = omega arith;
        stored = (refl, (refl, (refl, tt)));
      })
      refl (omega arith)
