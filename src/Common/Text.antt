-- ===== src/Common/Text.antt =====
-- Texts: joining, trimming and decimal print, as the source's template literals and string methods do.
use Prim.Native.Nat.{ℕ, zero, suc, ◌+◌, ◌/◌, ◌%◌}
use Prim.Native.Char.{Char, code}
use Prim.Native.String
use Prim.Native.String.{String, [], ◌∷◌}
use mathlib.Core.Bool.{Bool, true, false, ◌&&◌, ◌||◌}
use mathlib.Core.Option.{Option, none, some}
use text.Mathlib.Text.{◌==◌ as str_eq}
use kubwave.Common.Tests.{leb, ltb, ◌==◌, if◌then◌else◌}

infixr 65 ◌<>◌
abbrev pub ◌<>◌ : String → String → String
s <> t = String.◌++◌ s t

-- White space and line ends as `trim` reads them.
abbrev pub is_space : Char → Bool
is_space ch =
    let c = code ch in
    leb 9 c && leb c 13
    || c == 32
    || c == 160
    || c == 5760
    || leb 8192 c && leb c 8202
    || leb 8232 c && leb c 8233
    || c == 8239
    || c == 8287
    || c == 12288
    || c == 65279

abbrev pub trim_start : String → String
trim_start [] = []
trim_start (c ∷ s) = let rest = trim_start s in if is_space c then rest else c ∷ s

abbrev pub is_empty : String → Bool
is_empty [] = true
is_empty (c ∷ s) = false

abbrev pub trim_end : String → String
trim_end [] = []
trim_end (c ∷ s) = let rest = trim_end s in if is_space c && is_empty rest then [] else c ∷ rest

abbrev pub trim : String → String
trim s = trim_end (trim_start s)

-- `s.slice(n)`
abbrev pub drop_text : ℕ → String → String
drop_text zero s = s
drop_text (suc n) [] = []
drop_text (suc n) (c ∷ s) = drop_text n s

abbrev pub digit : ℕ → String
digit zero = "0"
digit (suc zero) = "1"
digit (suc (suc zero)) = "2"
digit (suc (suc (suc zero))) = "3"
digit (suc (suc (suc (suc zero)))) = "4"
digit (suc (suc (suc (suc (suc zero))))) = "5"
digit (suc (suc (suc (suc (suc (suc zero)))))) = "6"
digit (suc (suc (suc (suc (suc (suc (suc zero))))))) = "7"
digit (suc (suc (suc (suc (suc (suc (suc (suc zero)))))))) = "8"
digit (suc (suc (suc (suc (suc (suc (suc (suc (suc n))))))))) = "9"

-- The digits of `n`; `fuel` counts the digits still allowed, and `n + 1` is always enough.
decimal_from : ℕ → ℕ → String
decimal_from zero n = ""
decimal_from (suc fuel) n =
    let rest = decimal_from fuel (n / 10) <> digit (n % 10) in if ltb n 10 then digit n else rest

unfoldable pub decimal : ℕ → String
unfolding decimal_from
decimal n = decimal_from (suc n) n

-- Whether an optional text is one of two.
abbrev pub one_of_two : Option String → String → String → Bool
one_of_two none a b = false
one_of_two (some s) a b = str_eq s a || str_eq s b

abbrev pub lower_code : Char → ℕ
lower_code c = let n = code c in if leb 65 n && leb n 90 then n + 32 else n

-- Whether a text begins with, or contains, a word in either case.
abbrev pub starts_with_word : String → String → Bool
starts_with_word [] s = true
starts_with_word (c ∷ w) [] = false
starts_with_word (c ∷ w) (d ∷ s) = lower_code c == lower_code d && starts_with_word w s

abbrev pub has_word : String → String → Bool
has_word w [] = starts_with_word w []
has_word w (c ∷ s) = starts_with_word w (c ∷ s) || has_word w s

-- `replace(/^\/+/, '')` and `replace(/\/+$/, '')`
abbrev pub is_slash : Char → Bool
is_slash c = code c == 47

abbrev pub strip_start : String → String
strip_start [] = []
strip_start (c ∷ s) = let rest = strip_start s in if is_slash c then rest else c ∷ s

abbrev pub strip_end : String → String
strip_end [] = []
strip_end (c ∷ s) = let rest = strip_end s in if is_slash c && is_empty rest then [] else c ∷ rest
