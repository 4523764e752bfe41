-- ===== src/Tests/Drives.antt =====
-- Instances of the Google Drive adapter on a storage that is a map from queries to identifiers.
use syncrules.Prelude.{
  Text, codes, text_beq, text_eq, nat_eq, Option, none, some, [], ◌∷◌, ◌++◌, ok, ◌≡◌, ◌==◌,
  if◌then◌else◌, refl, arith, map, has_prefix,
}
use syncrules.Prelude.Dict.{Dict, lookup, insert, lookup-nil}
use syncrules.Paths.{is_abs, clean, join, join_slash, render, split_slash}
use syncrules.Paths.Parts.{IsName}
use syncrules.Paths.Inside.{rooted}
use syncrules.Drive.{DriveService, DriveFile, Page, mime_type_folder, file_info}
use syncrules.Drive.Queries.{
  quote, escape_query_string, read_quoted, name_query, folder_query, children_query,
  read_quoted-escape_query_string,
}
use syncrules.Drive.Names.{join_path, trim_first_slash}
use syncrules.Drive.Ids.{Cache, root_id, partial_path, get_file_id, get_or_create_folder_id}
use syncrules.Drive.Ids.Fresh.{fresh_id, IsSound, get_file_id-IsSound}
use syncrules.Drive.Ids.Again.{get_or_create_folder_id-again}
use syncrules.Drive.Operations.{find, list, delete, mkdir}
use syncrules.Drive.Operations.Paging.{IsChain, all_files, list-IsChain}
use syncrules.Drive.Operations.Stale.{mkdir-delete-stale}

abbrev file_of : Text → DriveFile
file_of id = record {
  id = id;
  name = codes "n";
  mime_type = mime_type_folder;
  size = 0;
  modified = 0;
  md5_checksum = [];
}

abbrev page_of : Option Text → Page
page_of none = record { files = []; next_page_token = [] }
page_of (some id) = record { files = file_of id ∷ []; next_page_token = [] }

-- A new folder gets the identifier `new`; a deletion empties the drive.
abbrev drive : DriveService (Dict Text)
drive = record {
  list = λ w q n t. ok (page_of (lookup q w));
  get = λ w id. ok (file_of id);
  download = λ w id. ok (record { chunks = []; failure = none });
  update = λ w id name c. (w, none);
  create =
      λ w name mime parent c. (insert (folder_query name parent) (codes "new") w, ok (codes "new"));
  delete = λ w id. ([], none);
}

abbrev holding_a : Dict Text
holding_a = (name_query (codes "a") root_id, codes "1") ∷ []

empty-IsSound : (w : Dict Text) → IsSound drive w []
empty-IsSound w path id h = absurd (ground (arith, lookup-nil {V = Text} path))

get_file_id-IsSound_example :
    ((get_file_id drive holding_a [] (codes "/a/b")).1 ≡ fresh_id drive holding_a (codes "/a/b"))
    × IsSound drive holding_a (get_file_id drive holding_a [] (codes "/a/b")).0
get_file_id-IsSound_example =
    get_file_id-IsSound drive holding_a [] (codes "/a/b") (empty-IsSound holding_a)

a-IsName : IsName (codes "a")
a-IsName = ground arith

abbrev cached : Cache
cached = (codes "/a", codes "new") ∷ []

folder_created :
    get_or_create_folder_id drive [] [] (partial_path (codes "a" ∷ []))
    ≡ ((folder_query (codes "a") root_id, codes "new") ∷ [], cached, ok (codes "new"))
unfolding get_or_create_folder_id lookup insert join_slash split_slash trim_first_slash text_beq
folder_created = refl

get_or_create_folder_id-again_example :
    get_or_create_folder_id drive [] cached (partial_path (codes "a" ∷ []))
    ≡ ([], cached, ok (codes "new"))
get_or_create_folder_id-again_example =
    get_or_create_folder_id-again drive [] ((folder_query (codes "a") root_id, codes "new") ∷ []) []
      [] cached (codes "new") (codes "a") [] (a-IsName, tt) folder_created

deleted : delete drive [] holding_a [] (codes "a") ≡ ([], (codes "/a", codes "1") ∷ [], none)
unfolding delete lookup name_query insert join_path join_slash split_slash trim_first_slash text_beq
    is_abs clean join has_prefix
deleted = refl

mkdir-delete-stale_example :
    mkdir drive [] [] ((codes "/a", codes "1") ∷ []) (codes "a")
    ≡ ([], (codes "/a", codes "1") ∷ [], none)
mkdir-delete-stale_example =
    mkdir-delete-stale drive holding_a [] [] ((codes "/a", codes "1") ∷ []) (codes "a") a-IsName
      (lookup-nil (codes "a")) deleted

-- Two pages, by the token.
abbrev first_page : Page
first_page = record { files = file_of (codes "1") ∷ []; next_page_token = codes "t" }

abbrev last_page : Page
last_page = record { files = file_of (codes "2") ∷ []; next_page_token = [] }

abbrev paged : DriveService (Dict Text)
paged = record drive { list = λ w q n t. ok (if t == [] then first_page else last_page) }

found : find paged [] [] [] [] ≡ ([], ok ([], root_id))
unfolding find get_file_id join_path lookup text_beq
found = refl

two_pages : IsChain paged [] (children_query root_id) [] (first_page ∷ last_page ∷ [])
unfolding IsChain text_beq
two_pages = (refl, (λ e. ground arith), (refl, refl))

list-IsChain_example :
    list paged 2 [] [] [] []
    ≡ ([], some (ok (map (file_info []) (all_files (first_page ∷ last_page ∷ [])))))
list-IsChain_example =
    list-IsChain paged 2 [] [] [] root_id [] [] [] (first_page ∷ last_page ∷ []) found two_pages
      (omega arith)

inside : join_path (rooted (codes "a" ∷ [])) (codes "b/../c") ≡ ok (codes "/a/c")
unfolding join_path text_beq is_abs clean join has_prefix render
inside = refl

read_quoted-escape_query_string_example :
    read_quoted (escape_query_string (codes "it's") ++ quote ∷ codes " and")
    ≡ some (codes "it's", codes " and")
read_quoted-escape_query_string_example =
    read_quoted-escape_query_string (codes "it's") (codes " and")
