-- ===== src/Keyboard/Keys.antt =====
-- The names of the keys, drivers/keyboard/keyboard.c: what a key writes, by its scan code.
use destin_x.Prelude.{ℕ, zero, suc, List, [], ◌∷◌}

abbrev unknown : List ℕ
unknown = b'U' ∷ b'N' ∷ b'K' ∷ b'N' ∷ b'O' ∷ b'W' ∷ b'N' ∷ []

-- The codes from 89 to 127 are unknown.
abbrev pub lowercase : List (List ℕ)
lowercase =
    unknown
    ∷ (b'E' ∷ b'S' ∷ b'C' ∷ [])
    ∷ (b'1' ∷ [])
    ∷ (b'2' ∷ [])
    ∷ (b'3' ∷ [])
    ∷ (b'4' ∷ [])
    ∷ (b'5' ∷ [])
    ∷ (b'6' ∷ [])
    ∷ (b'7' ∷ [])
    ∷ (b'8' ∷ [])
    ∷ (b'9' ∷ [])
    ∷ (b'0' ∷ [])
    ∷ (b'-' ∷ [])
    ∷ (b'=' ∷ [])
    ∷ (8 ∷ [])
    ∷ (9 ∷ [])
    ∷ (b'q' ∷ [])
    ∷ (b'w' ∷ [])
    ∷ (b'e' ∷ [])
    ∷ (b'r' ∷ [])
    ∷ (b't' ∷ [])
    ∷ (b'y' ∷ [])
    ∷ (b'u' ∷ [])
    ∷ (b'i' ∷ [])
    ∷ (b'o' ∷ [])
    ∷ (b'p' ∷ [])
    ∷ (b'[' ∷ [])
    ∷ (b']' ∷ [])
    ∷ (10 ∷ [])
    ∷ (b'C' ∷ b'T' ∷ b'R' ∷ b'L' ∷ [])
    ∷ (b'a' ∷ [])
    ∷ (b's' ∷ [])
    ∷ (b'd' ∷ [])
    ∷ (b'f' ∷ [])
    ∷ (b'g' ∷ [])
    ∷ (b'h' ∷ [])
    ∷ (b'j' ∷ [])
    ∷ (b'k' ∷ [])
    ∷ (b'l' ∷ [])
    ∷ (b';' ∷ [])
    ∷ (b'"' ∷ [])
    ∷ (b'`' ∷ [])
    ∷ (b'L' ∷ b'S' ∷ b'H' ∷ b'F' ∷ b'T' ∷ [])
    ∷ (92 ∷ [])
    ∷ (b'z' ∷ [])
    ∷ (b'x' ∷ [])
    ∷ (b'c' ∷ [])
    ∷ (b'v' ∷ [])
    ∷ (b'b' ∷ [])
    ∷ (b'n' ∷ [])
    ∷ (b'm' ∷ [])
    ∷ (b',' ∷ [])
    ∷ (b'.' ∷ [])
    ∷ (b'/' ∷ [])
    ∷ (b'R' ∷ b'S' ∷ b'H' ∷ b'F' ∷ b'T' ∷ [])
    ∷ (b'*' ∷ [])
    ∷ (b'A' ∷ b'L' ∷ b'T' ∷ [])
    ∷ (b' ' ∷ [])
    ∷ (b'C' ∷ b'A' ∷ b'P' ∷ b'S' ∷ [])
    ∷ (b'F' ∷ b'1' ∷ [])
    ∷ (b'F' ∷ b'2' ∷ [])
    ∷ (b'F' ∷ b'3' ∷ [])
    ∷ (b'F' ∷ b'4' ∷ [])
    ∷ (b'F' ∷ b'5' ∷ [])
    ∷ (b'F' ∷ b'6' ∷ [])
    ∷ (b'F' ∷ b'7' ∷ [])
    ∷ (b'F' ∷ b'8' ∷ [])
    ∷ (b'F' ∷ b'9' ∷ [])
    ∷ (b'F' ∷ b'1' ∷ b'0' ∷ [])
    ∷ (b'N' ∷ b'U' ∷ b'M' ∷ b'L' ∷ b'C' ∷ b'K' ∷ [])
    ∷ (b'S' ∷ b'C' ∷ b'R' ∷ b'L' ∷ b'C' ∷ b'K' ∷ [])
    ∷ (b'H' ∷ b'O' ∷ b'M' ∷ b'E' ∷ [])
    ∷ (b'U' ∷ b'P' ∷ [])
    ∷ (b'P' ∷ b'G' ∷ b'U' ∷ b'P' ∷ [])
    ∷ (b'-' ∷ [])
    ∷ (b'L' ∷ b'E' ∷ b'F' ∷ b'T' ∷ [])
    ∷ unknown
    ∷ (b'R' ∷ b'I' ∷ b'G' ∷ b'H' ∷ b'T' ∷ [])
    ∷ (b'+' ∷ [])
    ∷ (b'E' ∷ b'N' ∷ b'D' ∷ [])
    ∷ (b'D' ∷ b'O' ∷ b'W' ∷ b'N' ∷ [])
    ∷ (b'P' ∷ b'G' ∷ b'D' ∷ b'O' ∷ b'W' ∷ b'N' ∷ [])
    ∷ (b'I' ∷ b'N' ∷ b'S' ∷ [])
    ∷ (b'D' ∷ b'E' ∷ b'L' ∷ [])
    ∷ unknown
    ∷ unknown
    ∷ unknown
    ∷ (b'F' ∷ b'1' ∷ b'1' ∷ [])
    ∷ (b'F' ∷ b'1' ∷ b'2' ∷ [])
    ∷ []

-- The codes from 89 to 127 are unknown.
abbrev pub uppercase : List (List ℕ)
uppercase =
    unknown
    ∷ (b'E' ∷ b'S' ∷ b'C' ∷ [])
    ∷ (b'!' ∷ [])
    ∷ (b'@' ∷ [])
    ∷ (b'#' ∷ [])
    ∷ (b'$' ∷ [])
    ∷ (b'%' ∷ [])
    ∷ (b'^' ∷ [])
    ∷ (b'&' ∷ [])
    ∷ (b'*' ∷ [])
    ∷ (b'(' ∷ [])
    ∷ (b')' ∷ [])
    ∷ (b'_' ∷ [])
    ∷ (b'+' ∷ [])
    ∷ (8 ∷ [])
    ∷ (9 ∷ [])
    ∷ (b'Q' ∷ [])
    ∷ (b'W' ∷ [])
    ∷ (b'E' ∷ [])
    ∷ (b'R' ∷ [])
    ∷ (b'T' ∷ [])
    ∷ (b'Y' ∷ [])
    ∷ (b'U' ∷ [])
    ∷ (b'I' ∷ [])
    ∷ (b'O' ∷ [])
    ∷ (b'P' ∷ [])
    ∷ (b'{' ∷ [])
    ∷ (b'}' ∷ [])
    ∷ (10 ∷ [])
    ∷ (b'C' ∷ b'T' ∷ b'R' ∷ b'L' ∷ [])
    ∷ (b'A' ∷ [])
    ∷ (b'S' ∷ [])
    ∷ (b'D' ∷ [])
    ∷ (b'F' ∷ [])
    ∷ (b'G' ∷ [])
    ∷ (b'H' ∷ [])
    ∷ (b'J' ∷ [])
    ∷ (b'K' ∷ [])
    ∷ (b'L' ∷ [])
    ∷ (b':' ∷ [])
    ∷ (b'"' ∷ [])
    ∷ (b'~' ∷ [])
    ∷ (b'L' ∷ b'S' ∷ b'H' ∷ b'F' ∷ b'T' ∷ [])
    ∷ (b'|' ∷ [])
    ∷ (b'Z' ∷ [])
    ∷ (b'X' ∷ [])
    ∷ (b'C' ∷ [])
    ∷ (b'V' ∷ [])
    ∷ (b'B' ∷ [])
    ∷ (b'N' ∷ [])
    ∷ (b'M' ∷ [])
    ∷ (b'<' ∷ [])
    ∷ (b'>' ∷ [])
    ∷ (b'?' ∷ [])
    ∷ (b'R' ∷ b'S' ∷ b'H' ∷ b'F' ∷ b'T' ∷ [])
    ∷ (b'*' ∷ [])
    ∷ (b'A' ∷ b'L' ∷ b'T' ∷ [])
    ∷ (b' ' ∷ [])
    ∷ (b'C' ∷ b'A' ∷ b'P' ∷ b'S' ∷ [])
    ∷ (b'F' ∷ b'1' ∷ [])
    ∷ (b'F' ∷ b'2' ∷ [])
    ∷ (b'F' ∷ b'3' ∷ [])
    ∷ (b'F' ∷ b'4' ∷ [])
    ∷ (b'F' ∷ b'5' ∷ [])
    ∷ (b'F' ∷ b'6' ∷ [])
    ∷ (b'F' ∷ b'7' ∷ [])
    ∷ (b'F' ∷ b'8' ∷ [])
    ∷ (b'F' ∷ b'9' ∷ [])
    ∷ (b'F' ∷ b'1' ∷ b'0' ∷ [])
    ∷ (b'N' ∷ b'U' ∷ b'M' ∷ b'L' ∷ b'C' ∷ b'K' ∷ [])
    ∷ (b'S' ∷ b'C' ∷ b'R' ∷ b'L' ∷ b'C' ∷ b'K' ∷ [])
    ∷ (b'H' ∷ b'O' ∷ b'M' ∷ b'E' ∷ [])
    ∷ (b'U' ∷ b'P' ∷ [])
    ∷ (b'P' ∷ b'G' ∷ b'U' ∷ b'P' ∷ [])
    ∷ (b'-' ∷ [])
    ∷ (b'L' ∷ b'E' ∷ b'F' ∷ b'T' ∷ [])
    ∷ unknown
    ∷ (b'R' ∷ b'I' ∷ b'G' ∷ b'H' ∷ b'T' ∷ [])
    ∷ (b'+' ∷ [])
    ∷ (b'E' ∷ b'N' ∷ b'D' ∷ [])
    ∷ (b'D' ∷ b'O' ∷ b'W' ∷ b'N' ∷ [])
    ∷ (b'P' ∷ b'G' ∷ b'D' ∷ b'O' ∷ b'W' ∷ b'N' ∷ [])
    ∷ (b'I' ∷ b'N' ∷ b'S' ∷ [])
    ∷ (b'D' ∷ b'E' ∷ b'L' ∷ [])
    ∷ unknown
    ∷ unknown
    ∷ unknown
    ∷ (b'F' ∷ b'1' ∷ b'1' ∷ [])
    ∷ (b'F' ∷ b'1' ∷ b'2' ∷ [])
    ∷ []

-- The codes from 100 on have no name.
abbrev pub extended : List (List ℕ)
extended =
    []
    ∷ []
    ∷ []
    ∷ []
    ∷ []
    ∷ []
    ∷ []
    ∷ []
    ∷ []
    ∷ []
    ∷ []
    ∷ []
    ∷ []
    ∷ []
    ∷ []
    ∷ []
    ∷ []
    ∷ []
    ∷ []
    ∷ []
    ∷ []
    ∷ []
    ∷ []
    ∷ []
    ∷ []
    ∷ []
    ∷ []
    ∷ []
    ∷ (b'K' ∷ b'e' ∷ b'y' ∷ b'p' ∷ b'a' ∷ b'd' ∷ b' ' ∷ b'E' ∷ b'n' ∷ b't' ∷ b'e' ∷ b'r' ∷ [])
    ∷ (b'R' ∷ b'C' ∷ b't' ∷ b'r' ∷ b'l' ∷ [])
    ∷ []
    ∷ []
    ∷ []
    ∷ []
    ∷ []
    ∷ []
    ∷ []
    ∷ []
    ∷ []
    ∷ []
    ∷ []
    ∷ []
    ∷ []
    ∷ []
    ∷ []
    ∷ []
    ∷ []
    ∷ []
    ∷ []
    ∷ []
    ∷ []
    ∷ []
    ∷ []
    ∷ (b'K' ∷ b'e' ∷ b'y' ∷ b'p' ∷ b'a' ∷ b'd' ∷ b' ' ∷ b'/' ∷ [])
    ∷ []
    ∷ []
    ∷ (b'R' ∷ b'A' ∷ b'l' ∷ b't' ∷ [])
    ∷ []
    ∷ []
    ∷ []
    ∷ []
    ∷ []
    ∷ []
    ∷ []
    ∷ []
    ∷ []
    ∷ []
    ∷ []
    ∷ []
    ∷ []
    ∷ []
    ∷ (b'H' ∷ b'o' ∷ b'm' ∷ b'e' ∷ [])
    ∷ (b'U' ∷ b'p' ∷ b' ' ∷ b'A' ∷ b'r' ∷ b'r' ∷ b'o' ∷ b'w' ∷ [])
    ∷ (b'P' ∷ b'a' ∷ b'g' ∷ b'e' ∷ b' ' ∷ b'U' ∷ b'p' ∷ [])
    ∷ []
    ∷ (b'L' ∷ b'e' ∷ b'f' ∷ b't' ∷ b' ' ∷ b'A' ∷ b'r' ∷ b'r' ∷ b'o' ∷ b'w' ∷ [])
    ∷ []
    ∷ (b'R' ∷ b'i' ∷ b'g' ∷ b'h' ∷ b't' ∷ b' ' ∷ b'A' ∷ b'r' ∷ b'r' ∷ b'o' ∷ b'w' ∷ [])
    ∷ []
    ∷ (b'E' ∷ b'n' ∷ b'd' ∷ [])
    ∷ (b'D' ∷ b'o' ∷ b'w' ∷ b'n' ∷ b' ' ∷ b'A' ∷ b'r' ∷ b'r' ∷ b'o' ∷ b'w' ∷ [])
    ∷ (b'P' ∷ b'a' ∷ b'g' ∷ b'e' ∷ b' ' ∷ b'D' ∷ b'o' ∷ b'w' ∷ b'n' ∷ [])
    ∷ (b'I' ∷ b'n' ∷ b's' ∷ b'e' ∷ b'r' ∷ b't' ∷ [])
    ∷ (b'D' ∷ b'e' ∷ b'l' ∷ b'e' ∷ b't' ∷ b'e' ∷ [])
    ∷ []
    ∷ []
    ∷ []
    ∷ []
    ∷ []
    ∷ []
    ∷ []
    ∷ (b'L' ∷ b'e' ∷ b'f' ∷ b't' ∷ b' ' ∷ b'S' ∷ b'u' ∷ b'p' ∷ b'e' ∷ b'r' ∷ [])
    ∷ (b'R' ∷ b'i' ∷ b'g' ∷ b'h' ∷ b't' ∷ b' ' ∷ b'S' ∷ b'u' ∷ b'p' ∷ b'e' ∷ b'r' ∷ [])
    ∷ (b'A' ∷ b'p' ∷ b'p' ∷ b's' ∷ b'/' ∷ b'M' ∷ b'e' ∷ b'n' ∷ b'u' ∷ [])
    ∷ (b'P' ∷ b'o' ∷ b'w' ∷ b'e' ∷ b'r' ∷ [])
    ∷ (b'S' ∷ b'l' ∷ b'e' ∷ b'e' ∷ b'p' ∷ [])
    ∷ []
    ∷ []
    ∷ []
    ∷ (b'W' ∷ b'a' ∷ b'k' ∷ b'e' ∷ [])
    ∷ []

-- The entry of a table of 128 or 256 names, the rest of which are the given one.
abbrev pub entry : List (List ℕ) → List ℕ → ℕ → List ℕ
entry [] other i = other
entry (x ∷ xs) other zero = x
entry (x ∷ xs) other (suc i) = entry xs other i

unfoldable pub lowercase_of : ℕ → List ℕ
lowercase_of scan_code = entry lowercase unknown scan_code

unfoldable pub uppercase_of : ℕ → List ℕ
uppercase_of scan_code = entry uppercase unknown scan_code

unfoldable pub extended_of : ℕ → List ℕ
extended_of scan_code = entry extended [] scan_code
