-- ===== src/Pitr/Keys.antt =====
-- mysql-wrapper/src/pitr.rs: where the archive's objects live in the bucket, and how a key is read
-- back.
pub mod RoundTrip
use mysql_ha.Prelude.{
  ℕ, ◌+◌, ◌-◌, ◌/◌, Option, none, some, [], ◌∷◌, ◌++◌, if◌then◌else◌, Str, codes, is_empty,
  strip_prefix, strip_suffix, split_first, trim_matches,
}

pub record S3Location : Type 0 where
  pub bucket : Str
  pub access_key : Str
  pub secret_key : Str
  pub region : Str
  pub endpoint : Str
  pub path : Str

abbrev slash : ℕ
slash = b'/'

unfoldable pub base : S3Location → Str
unfolding trim_matches
base loc = trim_matches slash loc.path

unfoldable pub base_prefix : S3Location → Str
unfolding base
base_prefix loc = base loc

-- The three names that the base prefix is put in front of: `{base}/{name}`, or `{name}` alone.
unfoldable pub server_prefix : S3Location → Str → Str
server_prefix loc server_uuid =
    if is_empty (base loc)
    then codes "server-" ++ server_uuid
    else base loc ++ (slash ∷ (codes "server-" ++ server_uuid))

unfoldable pub shared_history_marker_key : S3Location → Str
unfolding base_prefix
shared_history_marker_key loc =
    if is_empty (base_prefix loc)
    then codes "shared-history"
    else base_prefix loc ++ codes "/shared-history"

unfoldable pub owner_key : S3Location → Str
unfolding base_prefix
owner_key loc =
    if is_empty (base_prefix loc)
    then codes "owner.json"
    else base_prefix loc ++ codes "/owner.json"

unfoldable pub full_prefix : S3Location → Str → Str
full_prefix loc server_uuid = server_prefix loc server_uuid ++ codes "/full"

unfoldable pub binlog_prefix : S3Location → Str → Str
binlog_prefix loc server_uuid = server_prefix loc server_uuid ++ codes "/binlog"

unfoldable pub full_dump_key : S3Location → Str → Str → Str
unfolding full_prefix
full_dump_key loc server_uuid rfc3339 =
    full_prefix loc server_uuid ++ (slash ∷ (rfc3339 ++ codes ".sql.gz"))

unfoldable pub full_meta_key : S3Location → Str → Str → Str
unfolding full_prefix
full_meta_key loc server_uuid rfc3339 =
    full_prefix loc server_uuid ++ (slash ∷ (rfc3339 ++ codes ".meta.json"))

unfoldable pub binlog_key : S3Location → Str → Str → Str
unfolding binlog_prefix
binlog_key loc server_uuid name = binlog_prefix loc server_uuid ++ (slash ∷ name)

infixl 5 ◌>>=◌
abbrev ◌>>=◌ {ℓ κ} : {A : Type ℓ} {B : Type κ} → Option A → (A → Option B) → Option B
none >>= f = none
some a >>= f = f a

-- `split('/')` yields at least one part, so its `next()?` never returns early.
unfoldable pub server_uuid_from_key : S3Location → Str → Option Str
unfolding base
server_uuid_from_key loc key = do
  rest ←
      if is_empty (base loc)
      then some key
      else strip_prefix (base loc) key >>= strip_prefix (slash ∷ [])
  rest' ← strip_prefix (codes "server-") rest
  let uuid = split_first slash rest'
  if is_empty uuid then none else some uuid

unfoldable pub meta_key_for_dump : Str → Str
meta_key_for_dump dump_key = elim (strip_suffix (codes ".sql.gz") dump_key) [
  | some stem ↦ stem ++ codes ".meta.json"
  | none ↦ dump_key ++ codes ".meta.json"
]
