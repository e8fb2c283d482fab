-- ===== src/Prelude/Text.antt =====
-- Python's `len(s)`, `s[:n]` and the truth of an optional text.
use Prim.Native.Nat.{ℕ, zero, suc, ◌≤◌}
use Prim.Native.String.{String, ◌++◌ as ◌<>◌}
use text.Mathlib.TextLemmas.{cons-append}
use text.Mathlib.Text.{◌==◌}
use fsamp_processor.Prelude.Tests.{if◌then◌else◌}
use mathlib.Core.Path.{◌≡◌, refl}
use mathlib.Core.Bool.{Bool, true, false}
use mathlib.Core.Option.{Option, none, some}
use native.Mathlib.Omega.{arith}

unfoldable pub text_length : String → ℕ
text_length String.[] = 0
text_length (String.◌∷◌ c s) = suc (text_length s)

unfoldable pub text_take : ℕ → String → String
text_take zero s = String.[]
text_take (suc n) String.[] = String.[]
text_take (suc n) (String.◌∷◌ c s) = String.◌∷◌ c (text_take n s)

unfoldable pub text_drop : ℕ → String → String
text_drop zero s = s
text_drop (suc n) String.[] = String.[]
text_drop (suc n) (String.◌∷◌ c s) = text_drop n s

-- `s.lstrip(c)` and `s.rstrip(c)` for a text `c` of one character
lstrip_char : String → String → String
lstrip_char c String.[] = String.[]
lstrip_char c (String.◌∷◌ d s) =
    let rest = lstrip_char c s in if String.◌∷◌ d String.[] == c then rest else String.◌∷◌ d s

rstrip_char : String → String → String
rstrip_char c String.[] = String.[]
rstrip_char c (String.◌∷◌ d s) = join (String.◌∷◌ d String.[]) (rstrip_char c s)
  where
    join : String → String → String
    join d String.[] = if d == c then String.[] else d
    join d (String.◌∷◌ x rest) = d <> String.◌∷◌ x rest

-- `s.strip(c)`
unfoldable pub strip_char : String → String → String
unfolding lstrip_char rstrip_char
strip_char c s = rstrip_char c (lstrip_char c s)

-- `bool(s)`
abbrev pub truthy : String → Bool
truthy String.[] = false
truthy (String.◌∷◌ c s) = true

-- `a or b`
abbrev pub or_text : String → String → String
or_text String.[] b = b
or_text (String.◌∷◌ c s) b = String.◌∷◌ c s

-- `if s:` for a text that may be missing
abbrev pub present : Option String → Bool
present none = false
present (some s) = truthy s

-- `a or b` for texts that may be missing
abbrev pub or_present : Option String → Option String → Option String
or_present none b = b
or_present (some String.[]) b = b
or_present (some (String.◌∷◌ c s)) b = some (String.◌∷◌ c s)

pub length-take_le : (n : ℕ) (s : String) → text_length (text_take n s) ≤ n
unfolding text_length text_take
length-take_le zero s = omega arith
length-take_le (suc n) String.[] = omega arith
length-take_le (suc n) (String.◌∷◌ c s) = omega (arith, length-take_le n s)

-- A prefix of a text that is not empty is not empty.
pub length-take_pos : (n : ℕ) (s : String) → truthy s ≡ true → 1 ≤ text_length (text_take (suc n) s)
unfolding text_length text_take
length-take_pos n String.[] h = cc
length-take_pos n (String.◌∷◌ c s) h = omega arith

pub take_of_le : (n : ℕ) (s : String) → text_length s ≤ n → text_take n s ≡ s
unfolding text_length text_take
take_of_le zero String.[] h = refl
take_of_le zero (String.◌∷◌ c s) h = absurd (omega arith)
take_of_le (suc n) String.[] h = refl
take_of_le (suc n) (String.◌∷◌ c s) h = λ i. String.◌∷◌ c (take_of_le n s (omega arith) i)

pub truthy-append_left : (s t : String) → truthy s ≡ true → truthy (s <> t) ≡ true
truthy-append_left String.[] t h = cc
truthy-append_left (String.◌∷◌ c s) t h = rw cons-append
