-- ===== src/Prelude/Number.antt =====
-- Numbers as text. `int(text)` accepts spaces around, a sign, ASCII digits with single underscores
-- between them, and at most 4300 digits (the interpreter's default limit).
use Prim.Native.Nat.{ℕ, zero, suc, ◌+◌, ◌-◌, ◌*◌, ◌/◌, ◌%◌}
use mathlib.Core.Bool.{Bool, true, false, ◌&&◌}
use mathlib.Core.Option
use mathlib.Core.Option.{Option, none, some}
use mathlib.Core.List.{[], ◌∷◌, ◌++◌}
use a2a_hub.Prelude.Tests.{ltb, leb, nat_eq, if◌then◌else◌}
use a2a_hub.Prelude.Int.{ℤ, pos, negsuc, neg}
use a2a_hub.Prelude.Text.{Str, strip}

abbrev max_digits : ℕ
max_digits = 4300

pub data CharClass : Type 0 where
  digit separator other : CharClass

classify_char : Bool → ℕ → CharClass
classify_char after_digit c =
    if leb b'0' c && leb c b'9'
    then digit
    else if nat_eq c b'_' && after_digit
    then separator
    else other

-- `count` is the number of digits read, `n` their value
scan : Bool → ℕ → ℕ → Str → Option ℕ
unfolding classify_char
scan after_digit count n [] = if after_digit && leb count max_digits then some n else none
scan after_digit count n (c ∷ s) = elim (classify_char after_digit c) [
  | digit ↦ scan true (count + 1) (n * 10 + (c - b'0')) s
  | separator ↦ scan false count n s
  | other ↦ none
]

signed : Str → Option ℤ
unfolding scan
signed [] = none
signed (c ∷ s) =
    if nat_eq c b'-'
    then Option.map neg (scan false 0 0 s)
    else if nat_eq c b'+'
    then Option.map pos (scan false 0 0 s)
    else Option.map pos (scan false 0 0 (c ∷ s))

unfoldable pub parse_int : Str → Option ℤ
unfolding signed strip
parse_int s = signed (strip s)

-- `str(n)`: the last argument of `print_digits` is the number, the first one is fuel
print_digits : ℕ → ℕ → Str
print_digits zero n = []
print_digits (suc fuel) n = elim (ltb n 10) [
  | true ↦ (b'0' + n) ∷ []
  | false ↦ print_digits fuel (n / 10) ++ (b'0' + n % 10) ∷ []
]

-- every round divides by ten, so `n + 1` rounds are enough
unfoldable pub show_nat : ℕ → Str
unfolding print_digits
show_nat n = print_digits (n + 1) n

unfoldable pub show_int : ℤ → Str
unfolding show_nat
show_int (pos n) = show_nat n
show_int (negsuc n) = b'-' ∷ show_nat (n + 1)
