-- ===== src/References/Decoded.antt =====
-- A text from its units, for the examples: each unit a character.
use Prim.Native.Nat.{Ordering, compare, lt, eq, gt}
use Prim.Native.Char.{Char, char, code, IsScalar, nul}
use text.Mathlib.TextEquality.{Char-path}
use kubwave.Common.{ℕ, String, ◌≡◌, ◌∙◌, refl, ap, [], ◌∷◌}
use kubwave.Common.Units.{Units, units}

char_by :
    (n : ℕ) (o p q : Ordering)
    → compare n 55296 ≡ o
    → compare 57343 n ≡ p
    → compare n 1114112 ≡ q
    → Char
char_by n lt p q e f g = char n (rw e tt)
char_by n eq lt lt e f g = char n (rw (e, f, g) tt)
char_by n gt lt lt e f g = char n (rw (e, f, g) tt)
char_by n o p q e f g = nul

unfoldable pub char_of : ℕ → Char
unfolding char_by
char_of n = char_by n (compare n 55296) (compare 57343 n) (compare n 1114112) refl refl refl

char_by-code :
    (n : ℕ) (o p q : Ordering) (e : compare n 55296 ≡ o) (f : compare 57343 n ≡ p)
    (g : compare n 1114112 ≡ q)
    → IsScalar n
    → code (char_by n o p q e f g) ≡ n
unfolding char_by
char_by-code n lt p q e f g h = refl
char_by-code n eq lt lt e f g h = refl
char_by-code n gt lt lt e f g h = refl
char_by-code n eq eq q e f g h = absurd (rw (e, f) at h)
char_by-code n eq gt q e f g h = absurd (rw (e, f) at h)
char_by-code n eq lt eq e f g h = absurd (rw (e, f, g) at h)
char_by-code n eq lt gt e f g h = absurd (rw (e, f, g) at h)
char_by-code n gt eq q e f g h = absurd (rw (e, f) at h)
char_by-code n gt gt q e f g h = absurd (rw (e, f) at h)
char_by-code n gt lt eq e f g h = absurd (rw (e, f, g) at h)
char_by-code n gt lt gt e f g h = absurd (rw (e, f, g) at h)

char_of-code : (c : Char) → char_of (code c) ≡ c
unfolding char_of
char_of-code (char n h) =
    Char-path (char_of n) (char n h)
      (char_by-code n (compare n 55296) (compare 57343 n) (compare n 1114112) refl refl refl h)

abbrev pub text_of : Units → String
text_of [] = String.[]
text_of (c ∷ s) = String.◌∷◌ (char_of c) (text_of s)

pub text_of-units : (s : String) → text_of (units s) ≡ s
text_of-units String.[] = refl
text_of-units (String.◌∷◌ c s) =
    ap (λ k. String.◌∷◌ k (text_of (units s))) (char_of-code c)
    ∙ ap (String.◌∷◌ c) (text_of-units s)
