-- ===== src/Pitr/Ownership.antt =====
-- mysql-wrapper/src/pitr.rs: who may archive under a root (`archive_ownership_verdict`). The text of
-- a refusal is a value, and white space is that of ASCII.
pub mod Claims
use mysql_ha.Prelude.{
  split, ℕ, ◌+◌, Bool, not, ◌&&◌, ◌||◌, Option, none, some, List, [], ◌∷◌, ◌++◌, leb, ◌==◌,
  if◌then◌else◌, is_some, any, In.here, In.there, Str, str_eq, is_empty, strip_prefix,
}

pub record ArchiveOwner : Type 0 where
  pub environment_id : Str
  pub history : Str
  pub service_ids : List Str
  pub claimed_at : ℕ

pub record ArchiveClaimant : Type 0 where
  pub environment_id : Str
  pub service_id : Str
  pub history : Str
  pub group_primary : Bool
  pub executed_gtid_set : Str

pub data Refusal : Type 0 where
  other_environment : List Str → Str → Str → Refusal
  no_history : List Str → Str → Refusal

pub data OwnershipVerdict : Type 0 where
  write : ArchiveOwner → OwnershipVerdict
  keep : OwnershipVerdict
  refuse : Refusal → OwnershipVerdict

abbrev is_space : ℕ → Bool
is_space b = (leb 9 b && leb b 13) || b == 32

-- `entry.trim_start()`.
unfoldable pub trim_start : Str → Str
trim_start [] = []
trim_start (b ∷ bs) = let later = trim_start bs in if is_space b then later else b ∷ bs

abbrev comma : ℕ
comma = 44

-- `carries_history`: an entry of the executed set starts with the history of the root.
unfoldable pub carries_history : Str → Str → Bool
carries_history history executed_gtid_set =
    not (is_empty history)
    && any (λ entry. is_some (strip_prefix history (trim_start entry)))
        (split comma executed_gtid_set)

abbrev pub record_service : ArchiveOwner → Str → OwnershipVerdict
record_service owner service_id =
    write (record owner { service_ids = owner.service_ids ++ service_id ∷ [] })

-- The verdict on a root that has an owner.
unfoldable pub owned_verdict : ArchiveOwner → ArchiveClaimant → OwnershipVerdict
owned_verdict owner me =
    if not (str_eq owner.environment_id me.environment_id)
    then refuse (other_environment owner.service_ids owner.environment_id me.environment_id)
    else if any (λ id. str_eq id me.service_id) owner.service_ids
    then keep
    else if me.group_primary
    then record_service owner me.service_id
    else if carries_history owner.history me.executed_gtid_set
    then record_service owner me.service_id
    else refuse (no_history owner.service_ids me.service_id)

unfoldable pub archive_ownership_verdict :
    Option ArchiveOwner → ArchiveClaimant → ℕ → OwnershipVerdict
archive_ownership_verdict none me now = write (record {
  environment_id = me.environment_id;
  history = me.history;
  service_ids = me.service_id ∷ [];
  claimed_at = now;
})
archive_ownership_verdict (some owner) me now = owned_verdict owner me
