-- ===== src/Tests/Mirrors.antt =====
-- An instance of the push on a storage that is a function from paths.
use syncrules.Prelude.{
  ℕ, Text, codes, text_eq, text_iff, nat_eq, Bool, true, false, Option, none, some, [], ◌∷◌, ok,
  err, ◌≡◌, ◌≢◌, ◌==◌, if◌then◌else◌, arith,
}
use syncrules.Prelude.Dict.{Dict}
use syncrules.Domain.{FileInfo, Error, not_found, source_to_target}
use syncrules.Adapter.{Adapter, Content, joined}
use syncrules.Planner.OneWay.{plan_one_way}
use syncrules.Service.Execution.{execute_actions}
use syncrules.Service.Storage.{Node, folder, file, Kept}
use syncrules.Progress.{CallbackReporter}
use syncrules.Progress.Transfers.{Agrees, execute_actions-Agrees}
use syncrules.Tests.Samples.{exact, rule, dir_a, file_b, file_c}

abbrev pub Files : Type 0
Files = Text → Option Node

abbrev pub put : Text → Option Node → Files → Files
put p n w q = if q == p then n else w q

pub put-same : (p : Text) (n : Option Node) (w : Files) → put p n w p ≡ n
put-same p n w = ground (arith, text_iff p p)

pub put-other : (p q : Text) (n : Option Node) (w : Files) → q ≢ p → Kept (w q) (put p n w q)
put-other p q n w h = ground (arith, text_iff q p)

abbrev new_text : Content
new_text = record { chunks = codes "new" ∷ codes "er" ∷ []; failure = none }

-- Every file reads the same.
abbrev reading : Adapter Files
reading = record {
  list = λ w p. ok [];
  read = λ w p. ok new_text;
  write = λ w p c. (w, some not_found);
  delete = λ w p. (w, some not_found);
  stat = λ w p. err not_found;
  mkdir = λ w p. (w, some not_found);
  exists = λ w p. ok true;
  close = λ w. (w, none);
}

abbrev store : Text → Content → Option Error → Files → Files × Option Error
store p c none w = (put p (some (file (joined c))) w, none)
store p c (some e) w = (w, some e)

abbrev writing : Adapter Files
writing = record {
  list = λ w p. ok [];
  read = λ w p. err not_found;
  write = λ w p c. store p c c.failure w;
  delete = λ w p. (put p none w, none);
  stat = λ w p. err not_found;
  mkdir = λ w p. (put p (some folder) w, none);
  exists = λ w p. ok true;
  close = λ w. (w, none);
}

abbrev theirs : Dict FileInfo
theirs = (codes "c", file_c) ∷ []

abbrev ours : Dict FileInfo
ours = (codes "a", dir_a) ∷ (codes "a/b", file_b) ∷ []

abbrev never : ℕ → Bool
never n = false

abbrev empty : Files
empty q = none

abbrev fresh_reporter : CallbackReporter
fresh_reporter = record {
  current_file = [];
  current_total = 0;
  current_bytes = 0;
  files_total = 0;
  bytes_total = 0;
  files_completed = 0;
  bytes_completed = 0;
  start_time = 0;
}

execute_actions-Agrees_example :
    Agrees 0 fresh_reporter
      (execute_actions never reading writing
        (plan_one_way exact rule source_to_target ours theirs).actions
        0
        0
        0
        empty).1
execute_actions-Agrees_example =
    execute_actions-Agrees never reading writing 0
      (plan_one_way exact rule source_to_target ours theirs).actions 0 empty fresh_reporter
