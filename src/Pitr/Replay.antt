-- ===== src/Pitr/Replay.antt =====
-- mysql-wrapper/src/pitr.rs: which of a lineage's archived binlogs a restore replays, in order, and
-- where the first hole cuts the run (`binlogs_to_replay`, `binlog_runs_past_gap`).
pub mod Run
pub mod Runs
use mysql_ha.Prelude.{
  ℕ, ◌+◌, ◌%◌, Bool, true, false, not, ◌||◌, Option, none, some, List, [], ◌∷◌, ◌++◌, ltb, ◌==◌,
  if◌then◌else◌, unwrap_or, last, find, Str, str_eq, u64_mod, sort_by,
}
use mysql_ha.Pitr.Binlog.{binlog_seq, binlog_name_cmp}

pub record BinlogGap : Type 0 where
  pub after : Str
  pub next_present : Str

pub record BinlogReplayPlan : Type 0 where
  pub run : List Str
  pub gap : Option BinlogGap

-- `files.iter().position(|f| f == start)`, and the files from there on.
unfoldable pub from_start : Str → List Str → Option (List Str)
from_start start [] = none
from_start start (f ∷ fs) = if str_eq f start then some (f ∷ fs) else from_start start fs

-- A file whose sequence is not the successor of the one before it. The build wraps on overflow.
unfoldable pub is_hole : Option ℕ → Option ℕ → Bool
is_hole (some prev) (some cur) = not (cur == ((prev + 1) % u64_mod))
is_hole (some prev) none = false
is_hole none cur = false

-- The `for` loop of `binlogs_to_replay`.
unfoldable pub replay_loop : List Str → Option ℕ → List Str → BinlogReplayPlan
unfolding is_hole
replay_loop run prev_seq [] = record { run = run; gap = none }
replay_loop run prev_seq (name ∷ rest) =
    let next = replay_loop (run ++ (name ∷ [])) (binlog_seq name) rest in
    if is_hole prev_seq (binlog_seq name)
    then record {
      run = run;
      gap = some (record { after = unwrap_or (last run) []; next_present = name });
    }
    else next

is_past : ℕ → Str → Bool
is_past start_seq f = elim (binlog_seq f) [ none ↦ false | some s ↦ ltb start_seq s ]

-- The first file past a coordinate file that is not in the archive.
next_past : List Str → Str → Option Str
unfolding is_past
next_past files start_file = elim (binlog_seq start_file) [
  | none ↦ none
  | some start_seq ↦ find (is_past start_seq) files
]

missing_start : Option Str → BinlogReplayPlan
missing_start none = record { run = []; gap = none }
missing_start (some next_present) = record {
  run = [];
  gap = some (record { after = []; next_present = next_present });
}

-- Rust's sort is the one of the model where each name carries a sequence number: elsewhere
-- `binlog_name_cmp` is not a total order, and the source's `sort_by` may give any order or panic.
unfoldable pub binlogs_to_replay : List Str → Str → BinlogReplayPlan
unfolding from_start replay_loop next_past missing_start
binlogs_to_replay files start_file =
    let sorted = sort_by binlog_name_cmp files in
    elim (from_start start_file sorted) [
      | none ↦ missing_start (next_past sorted start_file)
      | some tail ↦ replay_loop [] none tail
    ]

-- `runs.last_mut()`: the name joins the last run.
push_last : List (List Str) → Str → List (List Str)
push_last [] name = []
push_last (run ∷ []) name = (run ++ (name ∷ [])) ∷ []
push_last (run ∷ next ∷ rest) name = run ∷ push_last (next ∷ rest) name

no_runs : List (List Str) → Bool
no_runs [] = true
no_runs (run ∷ rest) = false

-- The `for` loop of `binlog_runs_past_gap`.
unfoldable pub runs_loop : List (List Str) → Option ℕ → List Str → List (List Str)
unfolding is_hole no_runs push_last
runs_loop runs prev_seq [] = runs
runs_loop runs prev_seq (name ∷ rest) =
    runs_loop
      (if is_hole prev_seq (binlog_seq name) || no_runs runs
        then runs ++ ((name ∷ []) ∷ [])
        else push_last runs name)
      (binlog_seq name) rest

-- Sorted as in `binlogs_to_replay`, with the same proviso on names without a sequence number.
unfoldable pub binlog_runs_past_gap : List Str → Str → List (List Str)
unfolding from_start runs_loop
binlog_runs_past_gap files next_present =
    elim (from_start next_present (sort_by binlog_name_cmp files)) [
      | none ↦ []
      | some tail ↦ runs_loop [] none tail
    ]
