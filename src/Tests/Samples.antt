-- ===== src/Tests/Samples.antt =====
-- Small data that the tests share.
use syncrules.Prelude.{ℕ, Text, codes, text_beq, Bool, true, false, Option, none, some, [], ◌∷◌}
use syncrules.Prelude.Dict.{Dict}
use syncrules.Domain.{FileInfo, FileType, regular, directory, SyncRule, one_way_push, keep_newest}

abbrev pub entry : Text → FileType → ℕ → ℕ → Text → FileInfo
entry path type size time checksum = record {
  path = path;
  type = type;
  size = size;
  mod_time = time;
  checksum = checksum;
  etag = [];
  is_deleted = false;
}

-- A matcher for names without special characters.
abbrev pub exact : Text → Text → Option Bool
exact pattern name = some (text_beq pattern name)

abbrev pub rule : SyncRule
rule = record {
  name = codes "docs";
  mode = one_way_push;
  source_endpoint = codes "here";
  target_endpoint = codes "there";
  ignore_patterns = codes ".git/" ∷ [];
  conflict_strategy = keep_newest;
  enabled = true;
  schedule = none;
}

abbrev pub dir_a : FileInfo
dir_a = entry (codes "a") directory 0 1 []

abbrev pub file_b : FileInfo
file_b = entry (codes "a/b") regular 3 7 (codes "x1")

abbrev pub file_b_old : FileInfo
file_b_old = entry (codes "a/b") regular 3 5 (codes "x0")

abbrev pub file_c : FileInfo
file_c = entry (codes "c") regular 4 2 []

abbrev pub git_file : FileInfo
git_file = entry (codes ".git/HEAD") regular 1 1 []

abbrev pub source : Dict FileInfo
source = (codes "a/b", file_b) ∷ (codes "a", dir_a) ∷ (codes ".git/HEAD", git_file) ∷ []

abbrev pub target : Dict FileInfo
target = (codes "c", file_c) ∷ (codes "a/b", file_b_old) ∷ []
