-- ===== src/Common/Text.antt =====
-- Python's `str`, character by character.
use Prim.Native.Nat.{ℕ, zero, suc}
use Prim.Native.Char.{Char, code}
use Prim.Native.String.{String}
use mathlib.Core.Bool.{Bool, true, false, ◌&&◌}
use mathlib.Core.Path.{◌≡◌, refl}
use native.Mathlib.Omega.{arith}
use shared_todos.Common.Equality.{if◌then◌else◌, ltb, ◌==◌, ==_refl, nat_eq}

-- `ord(c)`
abbrev pub char_code : Char → ℕ
char_code = code

-- the number of characters
abbrev pub str_length : String → ℕ
str_length String.[] = 0
str_length (String.◌∷◌ c s) = suc (str_length s)

-- `str.isascii`
abbrev pub is_ascii : String → Bool
is_ascii String.[] = true
is_ascii (String.◌∷◌ c s) = ltb (char_code c) 128 && is_ascii s

-- PostgreSQL stores no text that has the NUL character.
abbrev pub storable : String → Bool
storable String.[] = true
storable (String.◌∷◌ c s) = ltb 0 (char_code c) && storable s

-- `text.split(separator)[0]`, the separator as its code
abbrev pub before : ℕ → String → String
before separator String.[] = String.[]
before separator (String.◌∷◌ c s) =
    let rest = before separator s in
    if char_code c == separator then String.[] else String.◌∷◌ c rest

-- `a + b` on texts
abbrev pub str_append : String → String → String
str_append String.[] t = t
str_append (String.◌∷◌ c s) t = String.◌∷◌ c (str_append s t)

-- `text.startswith(prefix)`
abbrev pub starts_with : String → String → Bool
starts_with String.[] text = true
starts_with (String.◌∷◌ c s) String.[] = false
starts_with (String.◌∷◌ c s) (String.◌∷◌ d text) =
    let rest = starts_with s text in char_code c == char_code d && rest

-- `text[n:]`
abbrev pub str_drop : ℕ → String → String
str_drop zero text = text
str_drop (suc n) String.[] = String.[]
str_drop (suc n) (String.◌∷◌ c text) = str_drop n text

pub starts_with-append : (s t : String) → starts_with s (str_append s t) ≡ true
starts_with-append String.[] t = refl
starts_with-append (String.◌∷◌ c s) t =
    ground (arith, starts_with-append s t, ==_refl (char_code c))
