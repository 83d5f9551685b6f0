-- ===== src/Examples/Archive.antt =====
-- mysql-wrapper/src/pitr.rs at concrete inputs: keys, purge cuts, replay plans, full selection.
use mysql_ha.Prelude.{
  ℕ, ◌≡◌, refl, Option, none, some, List, [], ◌∷◌, ◌++◌, arith, if◌then◌else◌, In, All, Str, codes,
  str_eq, sort_by,
}
use mathlib.Core.List.{flatten}
use mysql_ha.Pitr.Keys.{S3Location, base, server_prefix, binlog_key}
use mysql_ha.Pitr.Binlog.{binlog_seq, binlog_name_cmp}
use mysql_ha.Pitr.Replay.{binlogs_to_replay, binlog_runs_past_gap}
use mysql_ha.Pitr.Replay.Run.{Replays, binlogs_to_replay-Replays, binlogs_to_replay_complete}
use mysql_ha.Pitr.Replay.Runs.{IsRun, AllParted, binlog_runs_past_gap-Cuts}

binlog_seq_plain : binlog_seq (codes "binlog.000042") ≡ some 42
unfolding binlog_seq
binlog_seq_plain = refl

binlog_seq_index : binlog_seq (codes "binlog.index") ≡ none
unfolding binlog_seq
binlog_seq_index = refl

abbrev bucket_location : S3Location
bucket_location = record {
  bucket = codes "b";
  access_key = [];
  secret_key = [];
  region = codes "auto";
  endpoint = codes "https://s3";
  path = codes "/binlog";
}

key_text :
    binlog_key bucket_location (codes "8f0e") (codes "binlog.000007")
    ≡ codes "binlog/server-8f0e/binlog/binlog.000007"
unfolding binlog_key server_prefix base
key_text = refl

abbrev b5 : Str
b5 = codes "b.5"

abbrev b6 : Str
b6 = codes "b.6"

abbrev b7 : Str
b7 = codes "b.7"

abbrev b8 : Str
b8 = codes "b.8"

abbrev on_disk : List Str
on_disk = b5 ∷ b6 ∷ b7 ∷ b8 ∷ []

abbrev ages : Str → Option ℕ
ages f = if str_eq f b5 then some 500 else if str_eq f b6 then some 100 else none

-- Listed out of order, with `b.7` missing.
abbrev archived : List Str
archived = b6 ∷ b8 ∷ b5 ∷ []

replay_stops_at_gap : (binlogs_to_replay archived b5).run ≡ b5 ∷ b6 ∷ []
unfolding binlogs_to_replay sort_by binlog_name_cmp binlog_seq
replay_stops_at_gap = refl

runs_past_gap : binlog_runs_past_gap archived b6 ≡ (b6 ∷ []) ∷ (b8 ∷ []) ∷ []
unfolding binlog_runs_past_gap sort_by binlog_name_cmp binlog_seq
runs_past_gap = refl

binlogs_to_replay-Replays_example : Replays archived b5 (binlogs_to_replay archived b5)
unfolding binlog_seq
binlogs_to_replay-Replays_example =
    binlogs_to_replay-Replays archived b5 (refl, (refl, (refl, tt))) (In.there (In.there In.here))

abbrev no_hole : List Str
no_hole = b6 ∷ b7 ∷ b5 ∷ []

binlogs_to_replay_complete_example : In b7 (binlogs_to_replay no_hole b5).run
unfolding binlogs_to_replay sort_by binlog_name_cmp binlog_seq
binlogs_to_replay_complete_example =
    binlogs_to_replay_complete no_hole b5 b7 5 7 (refl, (refl, (refl, tt)))
      (In.there (In.there In.here)) (In.there In.here) refl refl (omega arith) refl

binlog_runs_past_gap-Cuts_example :
    let out = binlog_runs_past_gap archived b6 in
    (pre : List Str) × (r : List Str) × (sort_by binlog_name_cmp archived ≡ pre ++ (b6 ∷ r))
    × (flatten out ≡ b6 ∷ r)
    × All IsRun out
    × AllParted out
unfolding binlog_seq
binlog_runs_past_gap-Cuts_example =
    binlog_runs_past_gap-Cuts archived b6 (refl, (refl, (refl, tt))) In.here

-- Names that carry no number: the replay runs over them, and over the hole behind them.
stray_names_replayed :
    binlogs_to_replay (b5 ∷ codes "b.6.tmp" ∷ codes "b.9" ∷ []) b5
    ≡ record { run = b5 ∷ codes "b.6.tmp" ∷ codes "b.9" ∷ []; gap = none }
unfolding binlogs_to_replay sort_by binlog_name_cmp binlog_seq
stray_names_replayed = refl
