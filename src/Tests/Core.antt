-- ===== src/Tests/Core.antt =====
-- Comparison, conflicts and ignore patterns.
use syncrules.Prelude.{codes, text_beq, true, some, [], ◌∷◌, ◌≡◌, refl, ◌↔◌}
use syncrules.Domain.{keep_newest, target_to_source}
use syncrules.Diff.{compare, files_identical, file_modified}
use syncrules.Diff.Content.{SameContent, compare-SameContent}
use syncrules.Conflict.{resolve}
use syncrules.Planner.Ignore.{should_ignore}
use syncrules.Tests.Samples.{exact, file_b, file_b_old}

compare-SameContent_example :
    ((compare (some file_b) (some file_b_old) ≡ files_identical) ↔ SameContent file_b file_b_old)
    × ((compare (some file_b) (some file_b_old) ≡ file_modified) ↔ ¬ SameContent file_b file_b_old)
compare-SameContent_example = compare-SameContent file_b file_b_old

newer_target :
    (resolve keep_newest (codes "a/b") (some file_b_old) (some file_b)).direction ≡ target_to_source
unfolding resolve text_beq
newer_target = refl

git_ignored : should_ignore exact (codes ".git") (codes ".git/" ∷ []) ≡ true
unfolding should_ignore text_beq
git_ignored = refl
