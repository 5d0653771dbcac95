-- ===== src/Prelude/Text.antt =====
-- Texts: equality tests, `strings.TrimSpace`, and the `%d` of `fmt.Sprintf`.
use Prim.Native.Nat.{ℕ, zero, suc, ◌/◌, ◌%◌}
use Prim.Native.Char.{Char, code}
use Prim.Native.String.{String}
use mathlib.Core.Bool.{Bool, ◌&&◌, ◌||◌}
use text.Mathlib.Text.{◌==◌ as string_eq}
use intuit_argo_rollouts_dem.Prelude.Tests.{leb, ◌==◌, if◌then◌else◌}
use intuit_argo_rollouts_dem.Prelude.Int.{ℤ, pos, negsuc}

abbrev pub str_eq : String → String → Bool
str_eq = string_eq

infixr 66 ◌<>◌
unfoldable pub ◌<>◌ : String → String → String
◌<>◌ String.[] t = t
◌<>◌ (String.◌∷◌ c s) t = String.◌∷◌ c (s <> t)

-- `unicode.IsSpace`.
is_space : Char → Bool
is_space c =
    let n = code c in
    (leb 9 n && leb n 13)
    || n == 32
    || n == 0x85
    || n == 0xA0
    || n == 0x1680
    || (leb 0x2000 n && leb n 0x200A)
    || n == 0x2028
    || n == 0x2029
    || n == 0x202F
    || n == 0x205F
    || n == 0x3000

trim_left : String → String
trim_left String.[] = String.[]
trim_left (String.◌∷◌ c s) = if is_space c then trim_left s else String.◌∷◌ c s

keep_unless_space : Char → String → String
keep_unless_space c String.[] = if is_space c then String.[] else String.◌∷◌ c String.[]
keep_unless_space c (String.◌∷◌ d s) = String.◌∷◌ c (String.◌∷◌ d s)

trim_right : String → String
trim_right String.[] = String.[]
trim_right (String.◌∷◌ c s) = keep_unless_space c (trim_right s)

unfoldable pub trim_space : String → String
unfolding trim_left trim_right keep_unless_space is_space
trim_space s = trim_right (trim_left s)

digit : ℕ → String
digit zero = "0"
digit (suc zero) = "1"
digit (suc (suc zero)) = "2"
digit (suc (suc (suc zero))) = "3"
digit (suc (suc (suc (suc zero)))) = "4"
digit (suc (suc (suc (suc (suc zero))))) = "5"
digit (suc (suc (suc (suc (suc (suc zero)))))) = "6"
digit (suc (suc (suc (suc (suc (suc (suc zero))))))) = "7"
digit (suc (suc (suc (suc (suc (suc (suc (suc zero)))))))) = "8"
digit _ = "9"

-- The decimal digits of a number below 10 ^ fuel, before the text `rest`.
decimal_onto : ℕ → ℕ → String → String
decimal_onto zero n rest = rest
decimal_onto (suc fuel) n rest =
    let text = digit (n % 10) <> rest in
    let more = decimal_onto fuel (n / 10) text in if n / 10 == 0 then text else more

-- `%d` of an int32: ten digits are enough.
unfoldable pub show_int : ℤ → String
unfolding digit decimal_onto ◌<>◌
show_int (pos n) = decimal_onto 10 n ""
show_int (negsuc n) = "-" <> decimal_onto 10 (suc n) ""
