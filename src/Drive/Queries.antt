-- ===== src/Drive/Queries.antt =====
-- The query texts of internal/adapter/gdrive/gdrive.go, and how the service reads a quoted text back.
use syncrules.Prelude.{
  ℕ, Text, text_eq, nat_eq, nat_same_iff, codes, Option, none, some, [], ◌∷◌, ◌++◌, ◌==◌, ◌||◌,
  if◌then◌else◌, ◌≡◌, refl, ap, ◌∙◌, arith,
}
use mathlib.Core.Option
use syncrules.Drive.{mime_type_folder}

abbrev pub quote : ℕ
quote = 39

abbrev backslash : ℕ
backslash = 92

-- `strings.ReplaceAll` of one byte by two.
replace_all : ℕ → ℕ → ℕ → Text → Text
replace_all old new next [] = []
replace_all old new next (c ∷ s) =
    let rest = replace_all old new next s in if c == old then new ∷ next ∷ rest else c ∷ rest

-- `escapeQueryString`: the backslashes first, then the quotes.
unfoldable pub escape_query_string : Text → Text
unfolding replace_all
escape_query_string s =
    replace_all quote backslash quote (replace_all backslash backslash backslash s)

-- The queries of `getFileID`, `getOrCreateFolderID` and `List`.
unfoldable pub name_query : Text → Text → Text
unfolding escape_query_string
name_query name parent =
    codes "name = '"
    ++ escape_query_string name
    ++ codes "' and '"
    ++ parent
    ++ codes "' in parents and trashed = false"

unfoldable pub folder_query : Text → Text → Text
unfolding escape_query_string
folder_query name parent =
    codes "name = '"
    ++ escape_query_string name
    ++ codes "' and '"
    ++ parent
    ++ codes "' in parents and mimeType = '"
    ++ mime_type_folder
    ++ codes "' and trashed = false"

pub children_query : Text → Text
children_query parent = codes "'" ++ parent ++ codes "' in parents and trashed = false"

-- How a quoted text of a query is read: a backslash keeps the next byte, a quote ends the text. The
-- result is the text and what follows it.
abbrev more : ℕ → Option (Text × Text) → Option (Text × Text)
more c = Option.map (λ r. (c ∷ r.0, r.1))

unfoldable pub read_quoted : Text → Option (Text × Text)
read_quoted [] = none
read_quoted (c ∷ []) = if c == quote then some ([], []) else none
read_quoted (c ∷ d ∷ s) =
    let rest = read_quoted s in
    let next = read_quoted (d ∷ s) in
    if c == quote then some ([], d ∷ s) else if c == backslash then more d rest else more c next

-- Both replacements at once.
escape_byte : ℕ → Text → Text
escape_byte c rest = if c == quote || c == backslash then backslash ∷ c ∷ rest else c ∷ rest

escape_query_string-cons :
    (c : ℕ) (s : Text) → escape_query_string (c ∷ s) ≡ escape_byte c (escape_query_string s)
unfolding escape_query_string escape_byte replace_all
escape_query_string-cons c s = ground (arith, nat_same_iff c quote, nat_same_iff c backslash)

read_quoted-escape_byte :
    (c : ℕ) (s : Text) (name rest : Text)
    → read_quoted s ≡ some (name, rest)
    → read_quoted (escape_byte c s) ≡ some (c ∷ name, rest)
unfolding read_quoted escape_byte
read_quoted-escape_byte c [] name rest h = ground arith
read_quoted-escape_byte c (d ∷ s) name rest h =
    ground (arith, nat_same_iff c quote, nat_same_iff c backslash)

escape_byte-append : (c : ℕ) (s t : Text) → escape_byte c s ++ t ≡ escape_byte c (s ++ t)
unfolding escape_byte
escape_byte-append c s t = ground arith

escape_query_string-nil : escape_query_string [] ≡ []
unfolding escape_query_string replace_all
escape_query_string-nil = refl

read_quoted-quote : (rest : Text) → read_quoted (quote ∷ rest) ≡ some ([], rest)
unfolding read_quoted
read_quoted-quote [] = refl
read_quoted-quote (d ∷ rest) = refl

-- The service reads an escaped name back as it was, and what follows its quote as it stands: no name
-- can end the text early or change the query.
pub read_quoted-escape_query_string :
    (name rest : Text) → read_quoted (escape_query_string name ++ quote ∷ rest) ≡ some (name, rest)
read_quoted-escape_query_string [] rest = rw escape_query_string-nil (read_quoted-quote rest)
read_quoted-escape_query_string (c ∷ name) rest =
    let tail = escape_query_string name ++ quote ∷ rest in
    ap (λ s. read_quoted (s ++ quote ∷ rest)) (escape_query_string-cons c name)
    ∙ ap read_quoted (escape_byte-append c (escape_query_string name) (quote ∷ rest))
    ∙ read_quoted-escape_byte c tail name rest (read_quoted-escape_query_string name rest)
