-- ===== src/Access/Passwords.antt =====
-- internal/auth/auth.go: isStrongPassword, on the code points of a password.
use opencode_backend.Base.{
  ℕ, ◌+◌, Bool, false, List, [], ◌∷◌, if◌then◌else◌, ltb, leb, ◌==◌, ◌&&◌, ◌||◌, not,
}
use opencode_backend.Automation.Text.{Text, codes, trim_space}
use opencode_backend.Stt.Runes.{equal_runes}

-- `len(plain)`: the bytes of the UTF-8 text.
unfoldable pub byte_length : Text → ℕ
byte_length [] = 0
byte_length (c ∷ cs) =
    (if ltb c 0x80 then 1 else if ltb c 0x800 then 2 else if ltb c 0x10000 then 3 else 4)
    + byte_length cs

-- `strings.ToLower`, as far as it gives ASCII letters: those of A to Z, the dotted capital I and the
-- Kelvin sign. No other letter can make a text of the list below.
unfoldable pub to_lower : Text → Text
to_lower [] = []
to_lower (c ∷ cs) =
    (if leb b'A' c && leb c b'Z'
      then c + 32
      else if c == 0x130
      then b'i'
      else if c == 0x212a
      then b'k'
      else c)
    ∷ to_lower cs

abbrev pub weak_passwords : List Text
weak_passwords =
    codes "admin"
    ∷ codes "password"
    ∷ codes "12345678"
    ∷ codes "123456789"
    ∷ codes "1234567890"
    ∷ codes "qwertyui"
    ∷ codes "qwerty123"
    ∷ codes "letmein1"
    ∷ codes "00000000"
    ∷ codes "admin123"
    ∷ codes "root1234"
    ∷ codes "12345678a"
    ∷ []

unfoldable pub is_listed : Text → List Text → Bool
unfolding equal_runes
is_listed t [] = false
is_listed t (w ∷ ws) = equal_runes t w || is_listed t ws

unfoldable pub is_strong_password : Text → Bool
unfolding byte_length to_lower trim_space is_listed
is_strong_password plain =
    if ltb (byte_length plain) 8
    then false
    else not (is_listed (to_lower (trim_space plain)) weak_passwords)
