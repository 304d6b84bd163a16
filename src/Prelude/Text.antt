-- ===== src/Prelude/Text.antt =====
-- Go strings as texts: equality, the byte order of `<`, and `strings.TrimSpace`.
-- The order of UTF-8 bytes is the order of code points.
use Prim.Native.Nat.{ℕ, ◌+◌, ◌≤◌, compare, Ordering}
use Prim.Native.Char.{code}
use Prim.Native.String.{String, ◌++◌ as append_text, len, count}
use mathlib.Core.Path.{◌≡◌, refl, ap, ◌∙◌}
use mathlib.Core.Logic.{◌↔◌}
use mathlib.Core.Bool.{Bool, true, false, ◌||◌, ◌&&◌}
use mathlib.Core.Option.{Option, none, some}
use native.Mathlib.Omega.{arith}
use text.Mathlib.TextLemmas.{length-append, nil-append, cons-append}
use text.Mathlib.Text.{◌==◌ as text_beq}
use text.Mathlib.TextEquality.{eq_iff, Char-path}
use taskpulse.Prelude.Tests.{leb, ◌==◌, if◌then◌else◌}

-- `a == b` on strings.
abbrev pub text_eq : String → String → Bool
text_eq a b = text_beq a b

pub text_eq_iff : (s t : String) → (text_eq s t ≡ true) ↔ (s ≡ t)
text_eq_iff = eq_iff

-- `s == ""`
abbrev pub is_empty : String → Bool
is_empty String.[] = true
is_empty (String.◌∷◌ c s) = false

-- `a < b` on strings.
unfoldable pub text_ltb : String → String → Bool
text_ltb String.[] String.[] = false
text_ltb String.[] (String.◌∷◌ d t) = true
text_ltb (String.◌∷◌ c s) String.[] = false
text_ltb (String.◌∷◌ c s) (String.◌∷◌ d t) =
    let rest = text_ltb s t in
    elim (compare (code c) (code d)) [
      | Ordering.lt ↦ true
      | Ordering.eq ↦ rest
      | Ordering.gt ↦ false
    ]

pub text_ltb_irrefl : (s : String) → text_ltb s s ≡ false
unfolding text_ltb
text_ltb_irrefl String.[] = refl
text_ltb_irrefl (String.◌∷◌ c s) = ground (arith, text_ltb_irrefl s)

pub text_ltb_trans :
    (s t u : String) → text_ltb s t ≡ true → text_ltb t u ≡ true → text_ltb s u ≡ true
unfolding text_ltb
text_ltb_trans String.[] String.[] u p q = q
text_ltb_trans String.[] (String.◌∷◌ d t) String.[] p q = q
text_ltb_trans String.[] (String.◌∷◌ d t) (String.◌∷◌ e u) p q = refl
text_ltb_trans (String.◌∷◌ c s) String.[] u p q = cc
text_ltb_trans (String.◌∷◌ c s) (String.◌∷◌ d t) String.[] p q = q
text_ltb_trans (String.◌∷◌ c s) (String.◌∷◌ d t) (String.◌∷◌ e u) p q =
    ground (arith, text_ltb_trans s t u)

-- Of two different texts one is before the other.
pub text_ltb_total : (s t : String) → text_ltb s t ≡ false → text_ltb t s ≡ false → s ≡ t
unfolding text_ltb
text_ltb_total String.[] String.[] p q = refl
text_ltb_total String.[] (String.◌∷◌ d t) p q = cc
text_ltb_total (String.◌∷◌ c s) String.[] p q = cc
text_ltb_total (String.◌∷◌ c s) (String.◌∷◌ d t) p q =
    ground (arith, Char-path c d, text_ltb_total s t)

-- `unicode.IsSpace`
abbrev is_space : ℕ → Bool
is_space c =
    (leb 9 c && leb c 13)
    || c == 32
    || c == 0x85
    || c == 0xa0
    || c == 0x1680
    || (leb 0x2000 c && leb c 0x200a)
    || c == 0x2028
    || c == 0x2029
    || c == 0x202f
    || c == 0x205f
    || c == 0x3000

trim_left : String → String
trim_left String.[] = String.[]
trim_left (String.◌∷◌ c s) =
    let rest = trim_left s in if is_space (code c) then rest else String.◌∷◌ c s

-- Space at the end goes: a character stays if it is no space or if something stays behind it.
trim_right : String → String
trim_right String.[] = String.[]
trim_right (String.◌∷◌ c s) =
    let rest = trim_right s in
    if is_empty rest && is_space (code c) then String.[] else String.◌∷◌ c rest

-- `strings.TrimSpace`
unfoldable pub trim_space : String → String
unfolding trim_left trim_right
trim_space s = trim_right (trim_left s)

-- `strings.TrimSpace(s) == ""`
abbrev pub is_blank : String → Bool
is_blank s = is_empty (trim_space s)

-- `a + b` on strings.
abbrev pub text_append : String → String → String
text_append a b = append_text a b

-- `len(s)`: the bytes of the UTF-8.
abbrev pub byte_length : String → ℕ
byte_length s = len s

-- `strings.TrimRight` with one character.
unfoldable pub trim_right_of : ℕ → String → String
trim_right_of c String.[] = String.[]
trim_right_of c (String.◌∷◌ d s) =
    let rest = trim_right_of c s in
    if is_empty rest && code d == c then String.[] else String.◌∷◌ d rest

-- What is behind a prefix: `strings.HasPrefix` and `strings.TrimPrefix` together.
unfoldable pub strip_prefix : String → String → Option String
strip_prefix String.[] s = some s
strip_prefix (String.◌∷◌ c p) String.[] = none
strip_prefix (String.◌∷◌ c p) (String.◌∷◌ d s) =
    let rest = strip_prefix p s in if code c == code d then rest else none

pub strip_prefix-append : (p s : String) → strip_prefix p (text_append p s) ≡ some s
unfolding strip_prefix
strip_prefix-append String.[] s = ap some (nil-append s)
strip_prefix-append (String.◌∷◌ c p) s =
    rw (cons-append c p s) (ground (arith, strip_prefix-append p s))

pub strip_prefix-eq-some : (p s t : String) → strip_prefix p s ≡ some t → s ≡ text_append p t
unfolding strip_prefix
strip_prefix-eq-some String.[] s t e = ground (arith, nil-append t)
strip_prefix-eq-some (String.◌∷◌ c p) String.[] t e = cc
strip_prefix-eq-some (String.◌∷◌ c p) (String.◌∷◌ d s) t e =
    ground (arith, Char-path c d, strip_prefix-eq-some p s t, cons-append c p t)

-- Something put behind a text gives another text.
pub text_append_longer : (s t : String) → 1 ≤ count t → text_eq s (text_append s t) ≡ false
text_append_longer s t h = ground (arith, text_eq_iff s (text_append s t), count-eq)
  where
    count-eq : s ≡ text_append s t → count s ≡ count s + count t
    count-eq e = ap count e ∙ length-append s t
