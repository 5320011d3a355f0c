-- ===== src/Console/Password/Strength.antt =====
-- Which passwords `validatePassword` of auth/frontend/src/pages/SignupPage.tsx accepts.
use Prim.Native.Char.{Char, code}
use vectron.Prelude.{
  ℕ, ◌≤◌, String, ◌≡◌, refl, Bool, true, ◌↔◌, ◌⊎◌, inl, inr, Option, none, some, arith, eq_iff,
  is_empty_str, ap,
}
use vectron.Client.Batch.{utf16_length}
use vectron.Console.Password.{
  Types, note_char, note_chars, no_types, count_types, validate_password, handle_submit,
}
use vectron.Console.Session.{Credentials, Session, Failure, signs_up, handle}

pub data Kind : Type 0 where
  upper : Kind
  lower : Kind
  digit : Kind
  special : Kind

abbrev pub InRange : ℕ → ℕ → ℕ → Type 0
InRange first last n = (first ≤ n) × (n ≤ last)

-- The character with this code is of the kind.
abbrev pub IsOf : Kind → ℕ → Type 0
IsOf upper n = InRange 65 90 n
IsOf lower n = InRange 97 122 n
IsOf digit n = InRange 48 57 n
IsOf special n = ¬ (InRange 65 90 n ⊎ InRange 97 122 n ⊎ InRange 48 57 n)

abbrev pub Contains : Kind → String → Type 0
Contains k String.[] = ⊥
Contains k (String.◌∷◌ c s) = IsOf k (code c) ⊎ Contains k s

-- A password of 8 to 128 code units with characters of three kinds.
abbrev pub IsStrong : String → Type 0
IsStrong s =
    (8 ≤ utf16_length s)
    × (utf16_length s ≤ 128)
    × ((Contains upper s × Contains lower s × Contains digit s)
        ⊎ (Contains upper s × Contains lower s × Contains special s)
        ⊎ (Contains upper s × Contains digit s × Contains special s)
        ⊎ (Contains lower s × Contains digit s × Contains special s))

abbrev flag : Kind → Types → Bool
flag upper t = t.has_upper
flag lower t = t.has_lower
flag digit t = t.has_digit
flag special t = t.has_special

flag-note_char :
    (k : Kind) (c : Char) (t : Types)
    → (flag k (note_char c t) ≡ true) ↔ ((flag k t ≡ true) ⊎ IsOf k (code c))
unfolding note_char
flag-note_char upper c t = ground arith
flag-note_char lower c t = ground arith
flag-note_char digit c t = ground arith
flag-note_char special c t = ground arith

flag-note_chars :
    (k : Kind) (s : String) (t : Types)
    → (flag k (note_chars s t) ≡ true) ↔ ((flag k t ≡ true) ⊎ Contains k s)
unfolding note_chars
flag-note_chars k String.[] t = ground arith
flag-note_chars k (String.◌∷◌ c s) t =
    ground (arith, flag-note_chars k s (note_char c t), flag-note_char k c t)

utf16_length-is_empty_str : (s : String) → is_empty_str s ≡ true → utf16_length s ≡ 0
unfolding utf16_length
utf16_length-is_empty_str s h = ap utf16_length ((eq_iff s "").0 h)

-- A password is accepted exactly if it has 8 to 128 UTF-16 code units and characters of at least
-- three of the four kinds: A to Z, a to z, 0 to 9, and any other.
pub validate_password-IsStrong : (s : String) → (validate_password s ≡ none) ↔ IsStrong s
unfolding validate_password count_types
validate_password-IsStrong s = ground (
  arith,
  utf16_length-is_empty_str s,
  flag-note_chars upper s no_types,
  flag-note_chars lower s no_types,
  flag-note_chars digit s no_types,
  flag-note_chars special s no_types,
)

-- What `handleSubmit` does, by the strength of the password.
abbrev pub IsSubmitted : Failure → Credentials → Session → Type 0
IsSubmitted type_error credentials s =
    (IsStrong credentials.password
      × (handle_submit type_error credentials s
          ≡ (none, handle type_error (signs_up credentials) s)))
    ⊎ ((¬ IsStrong credentials.password)
        × ((message : String) × (handle_submit type_error credentials s ≡ (some message, s))))

by_validation :
    (type_error : Failure) (credentials : Credentials) (s : Session) (o : Option String)
    → validate_password credentials.password ≡ o
    → IsSubmitted type_error credentials s
unfolding handle_submit
by_validation type_error credentials s none e =
    inl ((validate_password-IsStrong credentials.password).0 e, ground (arith, e))
by_validation type_error credentials s (some message) e = inr (
  λ strong. ground (arith, e, (validate_password-IsStrong credentials.password).1 strong),
  (message, ground (arith, e)),
)

pub handle_submit_cases :
    (type_error : Failure) (credentials : Credentials) (s : Session)
    → IsSubmitted type_error credentials s
handle_submit_cases type_error credentials s =
    by_validation type_error credentials s (validate_password credentials.password) refl
