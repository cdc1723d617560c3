-- ===== src/Prelude/Text.antt =====
-- Decimal numbers as text, the way `u32` is printed by `{}` and read by `str::parse::<u32>`.
use Prim.Native.Nat.{ℕ, zero, suc, ◌+◌, ◌-◌, ◌*◌, ◌/◌, ◌%◌, compare, Ordering}
use Prim.Native.Char.{code}
use Prim.Native.String.{String, ◌++◌ as ◌<>◌}
use mathlib.Core.Bool.{Bool, true, false, ◌&&◌, cond}
use mathlib.Core.Option.{Option, none, some}
use text.Mathlib.Text.{◌==◌ as same_text}

abbrev pub str_eq : String → String → Bool
str_eq s t = same_text s t

abbrev at_most : ℕ → ℕ → Bool
at_most a b = elim (compare a b) [ Ordering.gt ↦ false | _ ↦ true ]

abbrev digit_text : ℕ → String
digit_text zero = "0"
digit_text (suc zero) = "1"
digit_text (suc (suc zero)) = "2"
digit_text (suc (suc (suc zero))) = "3"
digit_text (suc (suc (suc (suc zero)))) = "4"
digit_text (suc (suc (suc (suc (suc zero))))) = "5"
digit_text (suc (suc (suc (suc (suc (suc zero)))))) = "6"
digit_text (suc (suc (suc (suc (suc (suc (suc zero))))))) = "7"
digit_text (suc (suc (suc (suc (suc (suc (suc (suc zero)))))))) = "8"
digit_text _ = "9"

-- Ten digits hold every `u32`.
print_digits : ℕ → ℕ → String
print_digits zero n = ""
print_digits (suc fuel) n =
    let more = print_digits fuel (n / 10) in
    cond (at_most 10 n) (more <> digit_text (n % 10)) (digit_text n)

unfoldable pub show_u32 : ℕ → String
unfolding print_digits
show_u32 n = print_digits 10 n

-- Digits from the left; a value that does not fit is an error.
read_digits : ℕ → String → Option ℕ
read_digits n String.[] = some n
read_digits n (String.◌∷◌ c s) =
    let d = code c in
    let n' = n * 10 + (d - 48) in
    let rest = read_digits n' s in
    cond (at_most 48 d && (at_most d 57 && at_most n' 4294967295)) rest none

-- One leading `+` is allowed, and there is at least one digit.
unfoldable pub parse_u32 : String → Option ℕ
unfolding read_digits
parse_u32 String.[] = none
parse_u32 (String.◌∷◌ c String.[]) = read_digits 0 (String.◌∷◌ c String.[])
parse_u32 (String.◌∷◌ c (String.◌∷◌ d s)) =
    cond (str_eq (String.◌∷◌ c String.[]) "+") (read_digits 0 (String.◌∷◌ d s))
      (read_digits 0 (String.◌∷◌ c (String.◌∷◌ d s)))
