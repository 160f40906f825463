-- ===== src/Numerals.antt =====
-- Decimal numbers: what `%d` prints and `atoi` reads.
pub mod RoundTrip
use bsflite_otr.Base.{
  ℕ, zero, suc, ◌+◌, ◌-◌, ◌*◌, ◌/◌, ◌%◌, ◌^◌, Bool, ◌&&◌, ◌||◌, List, [], ◌∷◌, ◌++◌, ltb, leb, ◌==◌,
  if◌then◌else◌,
}
use bsflite_otr.Session.{Text}

-- `%d` and `%u`; an int has ten digits at most.
pub decimal_loop : ℕ → ℕ → Text
decimal_loop zero n = []
decimal_loop (suc fuel) n =
    let rest = decimal_loop fuel (n / 10) in
    if ltb n 10 then (b'0' + n) ∷ [] else rest ++ ((b'0' + n % 10) ∷ [])

pub decimal : ℕ → Text
decimal n = decimal_loop 10 n

abbrev pub is_digit : ℕ → Bool
is_digit c = leb b'0' c && leb c b'9'

abbrev pub is_space : ℕ → Bool
is_space c = (c == b' ') || (leb 9 c && leb c 13)

-- The digits at the start of a text, after a value.
unfoldable pub digits_from : ℕ → Text → ℕ
digits_from v [] = v
digits_from v (c ∷ s) =
    let more = digits_from (v * 10 + (c - b'0')) s in if is_digit c then more else v

-- The sign of `atoi`; a result is an int, as a number modulo 2 ^ 32.
unfoldable pub signed : Text → ℕ
signed [] = 0
signed (c ∷ s) =
    if c == b'-'
    then (2 ^ 32 - digits_from 0 s % 2 ^ 32) % 2 ^ 32
    else if c == b'+'
    then digits_from 0 s % 2 ^ 32
    else digits_from 0 (c ∷ s) % 2 ^ 32

unfoldable pub atoi : Text → ℕ
atoi [] = 0
atoi (c ∷ s) = let rest = atoi s in if is_space c then rest else signed (c ∷ s)
