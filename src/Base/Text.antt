-- ===== src/Base/Text.antt =====
-- Go's string helpers, over the code points of a text (valid UTF-8).
use Prim.Native.Nat.{ℕ, zero, suc, ◌+◌, ◌/◌, ◌%◌}
use Prim.Native.Char.{Char, code}
use Prim.Native.String
use Prim.Native.String.{String, slice, [], ◌∷◌}
use mathlib.Core.Path.{◌≡◌, refl}
use mathlib.Core.Bool.{Bool, true, false, ◌&&◌, ◌||◌}
use interactive_whatsapp_meo.Base.Tests.{leb, ltb, ◌==◌, if◌then◌else◌}

infixr 65 ◌++ₛ◌
abbrev pub ◌++ₛ◌ : String → String → String
s ++ₛ t = String.◌++◌ s t

abbrev digit : ℕ → String
digit d = slice "0123456789" d (d + 1)

-- The digits of a number in front of a text; a number has fewer digits than it is, and one more.
abbrev digits_before : ℕ → ℕ → String → String
digits_before zero n text = text
digits_before (suc fuel) n text =
    let more = digits_before fuel (n / 10) (digit (n % 10) ++ₛ text) in
    if ltb n 10 then digit n ++ₛ text else more

-- `%d`
unfoldable pub decimal : ℕ → String
decimal n = digits_before (n + 1) n ""

-- `unicode.IsSpace`: Unicode's White_Space.
unfoldable pub is_space : Char → Bool
is_space c =
    (leb 9 (code c) && leb (code c) 13)
    || code c == 32
    || code c == 0x85
    || code c == 0xa0
    || code c == 0x1680
    || (leb 0x2000 (code c) && leb (code c) 0x200a)
    || code c == 0x2028
    || code c == 0x2029
    || code c == 0x202f
    || code c == 0x205f
    || code c == 0x3000

abbrev pub is_empty : String → Bool
is_empty [] = true
is_empty (c ∷ s) = false

unfoldable pub trim_left : String → String
trim_left [] = []
trim_left (c ∷ s) = if is_space c then trim_left s else c ∷ s

-- Drops the blanks at the end: a blank stays only in front of something that stays.
unfoldable pub trim_right : String → String
trim_right [] = []
trim_right (c ∷ s) = if is_space c && is_empty (trim_right s) then [] else c ∷ trim_right s

-- `strings.TrimSpace`
unfoldable pub trim_space : String → String
unfolding trim_left trim_right is_space
trim_space s = trim_right (trim_left s)

-- `strings.Contains` with a one-character needle
abbrev pub contains : ℕ → String → Bool
contains k [] = false
contains k (c ∷ s) = code c == k || contains k s

-- `strings.TrimPrefix` with a one-character prefix
abbrev pub trim_prefix : ℕ → String → String
trim_prefix k [] = []
trim_prefix k (c ∷ s) = if code c == k then s else c ∷ s

-- The part before the first separator: `strings.SplitN(s, sep, 2)[0]`
abbrev pub before_sep : ℕ → String → String
before_sep k [] = []
before_sep k (c ∷ s) = if code c == k then [] else c ∷ before_sep k s

-- The part behind the first separator, up to the next: `split_part(s, sep, 2)` of PostgreSQL.
abbrev pub after_sep : ℕ → String → String
after_sep k [] = []
after_sep k (c ∷ s) = if code c == k then before_sep k s else after_sep k s

-- The number of code points; the same as `len` on ASCII texts.
abbrev pub length : String → ℕ
length [] = 0
length (c ∷ s) = suc (length s)

-- The slices `s[:n]` and `s[n:]` of an ASCII text.
abbrev pub take : ℕ → String → String
take zero s = []
take (suc n) [] = []
take (suc n) (c ∷ s) = c ∷ take n s

abbrev pub drop : ℕ → String → String
drop zero s = s
drop (suc n) [] = []
drop (suc n) (c ∷ s) = drop n s

pub eq_nil_of_is_empty : (s : String) → is_empty s ≡ true → s ≡ []
eq_nil_of_is_empty [] h = refl
eq_nil_of_is_empty (c ∷ s) h = cc
