-- ===== src/Base/Chars.antt =====
-- The functions of JavaScript strings that the program calls, over UTF-16 code units. Letters are
-- mapped to upper and lower case in the ASCII range only.
use Prim.Native.Nat.{ℕ, zero, suc, ◌+◌, ◌-◌, ◌/◌, ◌%◌}
use mathlib.Core.Bool.{Bool, true, false, ◌&&◌, ◌||◌}
use mathlib.Core.List.{List, [], ◌∷◌, ◌++◌, map, reverse}
use mathlib.Core.Option.{Option, none, some}
use taskplane.Base.Tests.{◌==◌, leb, ltb, if◌then◌else◌}
use taskplane.Base.Strings.{Text}

abbrev pub is_upper : ℕ → Bool
is_upper c = leb b'A' c && leb c b'Z'

abbrev pub is_lower : ℕ → Bool
is_lower c = leb b'a' c && leb c b'z'

abbrev pub is_digit : ℕ → Bool
is_digit c = leb b'0' c && leb c b'9'

abbrev upper_code : ℕ → ℕ
upper_code c = if is_lower c then c - 32 else c

abbrev lower_code : ℕ → ℕ
lower_code c = if is_upper c then c + 32 else c

unfoldable pub to_upper : Text → Text
to_upper = map upper_code

unfoldable pub to_lower : Text → Text
to_lower = map lower_code

-- White space and line terminators, as `trim` knows them.
abbrev is_space : ℕ → Bool
is_space c =
    (leb 9 c && leb c 13)
    || c == 32
    || c == 160
    || c == 0x1680
    || (leb 0x2000 c && leb c 0x200a)
    || c == 0x2028
    || c == 0x2029
    || c == 0x202f
    || c == 0x205f
    || c == 0x3000
    || c == 0xfeff

trim_start : Text → Text
trim_start [] = []
trim_start (c ∷ s) = let rest = trim_start s in if is_space c then rest else c ∷ s

unfoldable pub trim : Text → Text
unfolding trim_start
trim s = reverse (trim_start (reverse (trim_start s)))

unfoldable pub starts_with : Text → Text → Bool
starts_with s [] = true
starts_with [] (c ∷ p) = false
starts_with (a ∷ s) (c ∷ p) = (a == c) && starts_with s p

-- `includes` of a single character.
unfoldable pub has_code : ℕ → Text → Bool
has_code c [] = false
has_code c (a ∷ s) = (a == c) || has_code c s

-- The text before the first `c`, and the text after it.
unfoldable pub split_once : ℕ → Text → Option (Text × Text)
split_once c [] = none
split_once c (a ∷ s) =
    let rest = split_once c s in
    if a == c then some ([], s) else elim rest [ none ↦ none | some p ↦ some (a ∷ p.0, p.1) ]

unfoldable pub join : Text → List Text → Text
join sep [] = []
join sep (x ∷ []) = x
join sep (x ∷ y ∷ r) = x ++ (sep ++ join sep (y ∷ r))

digits_from : ℕ → ℕ → Text → Text
digits_from zero n acc = acc
digits_from (suc f) n acc =
    let rest = digits_from f (n / 10) ((b'0' + n % 10) ∷ acc) in
    if ltb n 10 then (b'0' + n) ∷ acc else rest

-- A number in a template string. A number has no more decimal digits than `n + 1`.
unfoldable pub show : ℕ → Text
unfolding digits_from
show n = digits_from (suc n) n []
