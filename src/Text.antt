-- ===== src/Text.antt =====
-- Go's strings and string conversions, as far as the settings use them.
use Prim.Native.Char.{code}
use Prim.Native.String.{String}
use galwar.Base.{
  ℕ, ◌+◌, ◌-◌, ◌*◌, Bool, ◌&&◌, Option, none, some, List, [], ◌∷◌, ◌==◌, leb, if◌then◌else◌,
}
use galwar.Base.Int.{ℤ, pos, ◌-ℤ◌}

-- The code points of a text.
abbrev pub codes : String → List ℕ
codes String.[] = []
codes (String.◌∷◌ c s) = code c ∷ codes s

is_digit : ℕ → Bool
is_digit c = leb b'0' c && leb c b'9'

digits_from : ℕ → List ℕ → Option ℕ
unfolding is_digit
digits_from n [] = some n
digits_from n (c ∷ cs) =
    let rest = digits_from (n * 10 + (c - b'0')) cs in if is_digit c then rest else none

-- One digit at least.
magnitude : List ℕ → Option ℕ
unfolding digits_from
magnitude [] = none
magnitude (c ∷ cs) = digits_from 0 (c ∷ cs)

positive : Option ℕ → Option ℤ
positive none = none
positive (some n) = if leb n 9_223_372_036_854_775_807 then some (pos n) else none

negative : Option ℕ → Option ℤ
negative none = none
negative (some n) = if leb n 9_223_372_036_854_775_808 then some (pos 0 -ℤ pos n) else none

signed : List ℕ → Option ℤ
unfolding magnitude positive negative
signed [] = none
signed (c ∷ cs) =
    if c == b'-'
    then negative (magnitude cs)
    else if c == b'+'
    then positive (magnitude cs)
    else positive (magnitude (c ∷ cs))

-- strconv.Atoi, without its error value.
unfoldable pub atoi : String → Option ℤ
unfolding signed
atoi s = signed (codes s)
