-- ===== src/Pitr/Retention/Types.antt =====
-- mysql-wrapper/src/pitr.rs: the planner's input and its plan. Log notes are values, one
-- constructor for each message, with what the message prints; a `chrono::Duration` is a signed
-- number of nanoseconds.
use mysql_ha.Prelude.{
  ℕ, ◌+◌, ◌-◌, ◌*◌, Bool, true, ◌&&◌, Option, none, some, List, [], ◌∷◌, ◌++◌, map, ltb, leb, ◌==◌,
  if◌then◌else◌, length, Str, contains,
}
use mysql_ha.Pitr.Fulls.{FullBackupRef}

-- `negative n` is -(n + 1).
pub data Duration : Type 0 where
  non_negative : ℕ → Duration
  negative : ℕ → Duration

unfoldable pub not_positive : Duration → Bool
not_positive (non_negative n) = n == 0
not_positive (negative n) = true

-- `instant - duration`; `none` where chrono panics, below the earliest instant.
unfoldable pub sub_duration : ℕ → Duration → Option ℕ
sub_duration t (non_negative n) = if leb n t then some (t - n) else none
sub_duration t (negative n) = some (t + n + 1)

pub record LineageObjects : Type 0 where
  pub server_uuid : Str
  pub fulls : List FullBackupRef
  pub full_objects_seen : ℕ
  pub orphan_dumps : List (Str × ℕ)
  pub binlogs : List Str
  pub binlog_ages : List (Str × ℕ)

pub record RetentionInput : Type 0 where
  pub lineages : List LineageObjects
  pub active_server_uuid : Option Str
  pub now : ℕ
  pub horizon : Duration
  pub shared_history_marker : Bool

pub data RetentionNote : Type 0 where
  no_active_lineage horizon_not_positive shared_no_full : RetentionNote
  active_without_full : Str → RetentionNote
  fulls_unreadable : Str → ℕ → RetentionNote
  unrestorable_binlogs : Str → ℕ → RetentionNote
  retiring_lineage : Str → ℕ → RetentionNote
  floor_predates_horizon : Str → ℕ → RetentionNote
  floor_unparseable : Str → Str → RetentionNote
  names_unparseable : Str → ℕ → RetentionNote
  lineage_swept : Str → Bool → ℕ → FullBackupRef → ℕ → ℕ → RetentionNote
  shared_unreadable : ℕ → List Str → RetentionNote
  ages_unknown : Str → ℕ → RetentionNote
  shared_swept : Str → Bool → ℕ → ℕ → FullBackupRef → ℕ → ℕ → RetentionNote

pub record RetentionPlan : Type 0 where
  pub expired_full_keys : List Str
  pub expired_binlogs : List (Str × Str)
  pub orphan_dump_keys : List Str
  pub retired_lineages : List Str
  pub notes : List RetentionNote

abbrev pub empty_plan : RetentionPlan
empty_plan = record {
  expired_full_keys = [];
  expired_binlogs = [];
  orphan_dump_keys = [];
  retired_lineages = [];
  notes = [];
}

abbrev pub note : RetentionNote → RetentionPlan
note n = record empty_plan { notes = n ∷ [] }

-- The planner only ever pushes onto the plan's lists: what a later part of it pushes stands behind
-- what an earlier part pushed.
infixr 65 ◌then_push◌
abbrev pub ◌then_push◌ : RetentionPlan → RetentionPlan → RetentionPlan
p then_push q = record {
  expired_full_keys = p.expired_full_keys ++ q.expired_full_keys;
  expired_binlogs = p.expired_binlogs ++ q.expired_binlogs;
  orphan_dump_keys = p.orphan_dump_keys ++ q.orphan_dump_keys;
  retired_lineages = p.retired_lineages ++ q.retired_lineages;
  notes = p.notes ++ q.notes;
}

unfoldable pub is_empty_plan : RetentionPlan → Bool
is_empty_plan p =
    length p.expired_full_keys == 0
    && (length p.expired_binlogs == 0 && length p.orphan_dump_keys == 0)

unfoldable pub object_count : RetentionPlan → ℕ
object_count p = length p.expired_full_keys + length p.expired_binlogs + length p.orphan_dump_keys

abbrev pub min_active_fulls_kept : ℕ
min_active_fulls_kept = 2

-- `chrono::Duration::seconds(ORPHAN_DUMP_GRACE_SECONDS)`.
abbrev pub orphan_grace : ℕ
orphan_grace = 6 * 3600 * 1_000_000_000

-- The orphan loop: dumps without a sidecar that are past the grace window.
unfoldable pub expired_orphans : ℕ → List (Str × ℕ) → List Str
expired_orphans now [] = []
expired_orphans now ((key, uploaded_at) ∷ rest) =
    let later = expired_orphans now rest in
    if ltb (uploaded_at + orphan_grace) now then key ∷ later else later

-- Both objects of each full that is not kept.
unfoldable pub expired_keys : (Str → Str) → List Str → List FullBackupRef → List Str
expired_keys meta_key kept_dumps [] = []
expired_keys meta_key kept_dumps (f ∷ fs) =
    let rest = expired_keys meta_key kept_dumps fs in
    if contains kept_dumps f.dump_key then rest else f.dump_key ∷ meta_key f.dump_key ∷ rest

abbrev pub named : Str → List Str → List (Str × Str)
named uuid [] = []
named uuid (name ∷ names) = (uuid, name) ∷ named uuid names

abbrev pub dump_keys : List FullBackupRef → List Str
dump_keys = map (λ f. f.dump_key)
