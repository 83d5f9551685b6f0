-- ===== src/Pitr/Fulls.antt =====
-- mysql-wrapper/src/pitr.rs: full backups, the one that a restore stands on
-- (`newest_qualifying_full`) and those that retention keeps (`fulls_to_keep`). An instant is the
-- number of nanoseconds since the earliest instant that chrono holds, which is a whole second; leap
-- seconds are not represented.
pub mod Restorable
pub mod Window
use mysql_ha.Prelude.{
  max_by, ℕ, ◌+◌, ◌-◌, ◌%◌, compare, Ordering, min, max, Bool, false, ◌&&◌, Option, none, some,
  List, ltb, leb, if◌then◌else◌, length, take, get_elem?, filter, Str, str_cmp, sort_by, max_by,
}

pub record FullBackupMeta : Type 0 where
  pub taken_at : ℕ
  pub binlog_file : Str
  pub binlog_pos : ℕ
  pub server_uuid : Str
  pub mysql_version : Str
  pub gtid_purged : Option Str
  pub dump_bytes : Option ℕ
  pub datadir_bytes : Option ℕ

pub record FullBackupRef : Type 0 where
  pub server_uuid : Str
  pub dump_key : Str
  pub meta : FullBackupMeta

abbrev nanos_per_second : ℕ
nanos_per_second = 1_000_000_000

-- `with_nanosecond` sets the part below the second.
unfoldable pub floor_to_millis : ℕ → ℕ
floor_to_millis t = let nanos = t % nanos_per_second in (t - nanos) + (nanos - nanos % 1_000_000)

-- `then_with`.
abbrev pub then_cmp : Ordering → Ordering → Ordering
then_cmp Ordering.eq next = next
then_cmp Ordering.lt next = Ordering.lt
then_cmp Ordering.gt next = Ordering.gt

unfoldable pub newest_cmp : FullBackupRef → FullBackupRef → Ordering
newest_cmp a b =
    then_cmp (compare a.meta.taken_at b.meta.taken_at) (str_cmp a.server_uuid b.server_uuid)

unfoldable pub newest_qualifying_full : List FullBackupRef → ℕ → Option FullBackupRef
unfolding max_by newest_cmp
newest_qualifying_full fulls target =
    max_by newest_cmp (filter (λ f. leb (floor_to_millis f.meta.taken_at) target) fulls)

-- The order of `fulls_to_keep`: newest first, then by dump key.
unfoldable pub newest_first : FullBackupRef → FullBackupRef → Ordering
newest_first a b =
    then_cmp (compare b.meta.taken_at a.meta.taken_at) (str_cmp a.dump_key b.dump_key)

-- `inside.max(min_kept).max(1).min(sorted.len())`.
abbrev keep_count : ℕ → ℕ → ℕ → ℕ
keep_count inside min_kept len = min (max (max inside min_kept) 1) len

-- `keep < sorted.len() && sorted[keep - 1].meta.taken_at > cutoff`. An index out of range cannot
-- occur: `keep` is at least 1 where it is below the length.
boundary_at : Option FullBackupRef → Bool → ℕ → Bool
boundary_at none below cutoff = false
boundary_at (some f) below cutoff = below && ltb cutoff f.meta.taken_at

abbrev needs_boundary : List FullBackupRef → ℕ → ℕ → Bool
needs_boundary sorted keep cutoff =
    boundary_at (get_elem? sorted (keep - 1)) (ltb keep (length sorted)) cutoff

unfoldable pub fulls_to_keep : List FullBackupRef → ℕ → ℕ → List FullBackupRef
unfolding boundary_at
fulls_to_keep fulls cutoff min_kept =
    let sorted = sort_by newest_first fulls in
    let inside = length (filter (λ f. leb cutoff f.meta.taken_at) sorted) in
    let keep = keep_count inside min_kept (length sorted) in
    take (if needs_boundary sorted keep cutoff then keep + 1 else keep) sorted
