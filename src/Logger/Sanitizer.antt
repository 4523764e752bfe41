-- ===== src/Logger/Sanitizer.antt =====
-- internal/logger/sanitizer.go. A rule is its replacement in a text; what `regexp.Compile` makes of a
-- pattern of the caller is a parameter.
pub mod Hides
pub mod Patterns
pub mod Folding
pub mod Scan
pub mod Replacing
pub mod Assigned
pub mod Password
pub mod Rules
use mathlib.Core.Option
use syncrules.Prelude.{
  ℕ, ◌+◌, ◌/◌, ◌%◌, Text, nat_eq, codes, Bool, true, false, Option, none, some, List, [], ◌∷◌, ◌++◌,
  ◌||◌, if◌then◌else◌, leb, ltb, length, contains, to_lower, Result, ok, err,
}
use syncrules.Domain.{Error, wrapped}

-- An argument of a log call: a string, an error by its text, or another value.
pub data Arg : Type 0 where
  text error : Text → Arg
  other : ℕ → Arg

-- `SanitizeRule`: `Pattern.ReplaceAllString(_, Replacement)`.
abbrev pub SanitizeRule : Type 0
SanitizeRule = Text → Text

-- `Sanitize`
unfoldable pub sanitize : List SanitizeRule → Text → Text
sanitize [] input = input
sanitize (rule ∷ rules) input = sanitize rules (rule input)

-- `AddRule`, by what `regexp.Compile` makes of the pattern.
unfoldable pub add_rule :
    (Text → Text → Result Error SanitizeRule)
    → List SanitizeRule
    → Text
    → Text
    → List SanitizeRule × Option Error
add_rule compile rules pattern replacement = elim (compile pattern replacement) [
  | err e ↦ (rules, some (wrapped (codes "invalid pattern") e))
  | ok rule ↦ (rules ++ rule ∷ [], none)
]

abbrev sensitive_keys : List Text
sensitive_keys =
    codes "password"
    ∷ codes "passwd"
    ∷ codes "pwd"
    ∷ codes "token"
    ∷ codes "secret"
    ∷ codes "api_key"
    ∷ codes "apikey"
    ∷ codes "credential"
    ∷ codes "auth"
    ∷ []

contains_any : Text → List Text → Bool
contains_any key [] = false
contains_any key (word ∷ words) = contains key word || contains_any key words

-- `isSensitiveKey`
unfoldable pub is_sensitive_key : Text → Bool
unfolding contains_any
is_sensitive_key key = contains_any (to_lower key) sensitive_keys

-- `string(b)` of a byte: the UTF-8 form of the character with that number.
unfoldable pub byte_string : ℕ → Text
byte_string b = if ltb b 128 then b ∷ [] else (192 + b / 64) ∷ (128 + b % 64) ∷ []

-- `value[len(value)-1]` of a value that is not empty.
pub last_byte : ℕ → Text → ℕ
last_byte c [] = c
last_byte c (d ∷ s) = last_byte d s

-- `maskValue`
unfoldable pub mask_value : Text → Text
unfolding byte_string last_byte
mask_value [] = codes "***"
mask_value (c ∷ s) =
    if leb (length (c ∷ s)) 2
    then codes "***"
    else if leb (length (c ∷ s)) 8
    then byte_string c ++ codes "***"
    else byte_string c ++ codes "***" ++ byte_string (last_byte c s)

-- The value of a pair whose key is sensitive.
mask_arg : Arg → Arg
unfolding mask_value
mask_arg (text v) = text (mask_value v)
mask_arg (error v) = text (mask_value v)
mask_arg (other n) = other n

mask_pair : Arg → Arg → Arg
unfolding is_sensitive_key mask_arg
mask_pair (text key) value = if is_sensitive_key key then mask_arg value else value
mask_pair key value = value

-- `SanitizeArgs`: the pairs of a key and a value; a last argument without a partner stays.
unfoldable pub sanitize_args : List Arg → List Arg
unfolding mask_pair
sanitize_args [] = []
sanitize_args (arg ∷ []) = arg ∷ []
sanitize_args (key ∷ value ∷ args) = key ∷ mask_pair key value ∷ sanitize_args args
