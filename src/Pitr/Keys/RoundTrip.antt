-- ===== src/Pitr/Keys/RoundTrip.antt =====
-- mysql-wrapper/src/pitr.rs: the lineage is read back from every key that is built for it, and the
-- sidecar's key from the dump's.
use mysql_ha.Prelude.{
  ◌≡◌, inl, inr, false, some, [], ◌∷◌, ◌++◌, append_assoc, ◌==◌, Bool-cases, any, Str, codes,
  is_empty, strip_prefix-append, strip_suffix-append, split_first-append,
}
use mysql_ha.Pitr.Keys.{
  S3Location, base, server_prefix, full_dump_key, full_meta_key, binlog_key, server_uuid_from_key,
  meta_key_for_dump, slash, full_prefix,
}

-- A server UUID as it stands in a key: not empty, and with no slash in it.
abbrev pub IsLineage : Str → Type 0
IsLineage uuid = (is_empty uuid ≡ false) × (any (λ c. c == slash) uuid ≡ false)

abbrev tagged : Str → Str → Str
tagged uuid r = codes "server-" ++ (uuid ++ (slash ∷ r))

from_key-prefix :
    (loc : S3Location) (uuid r : Str)
    → IsLineage uuid
    → server_uuid_from_key loc (server_prefix loc uuid ++ (slash ∷ r)) ≡ some uuid
unfolding server_uuid_from_key server_prefix
from_key-prefix loc uuid r h = elim (Bool-cases (is_empty (base loc))) [
  | inl e ↦ rw (
    e,
    strip_prefix-append (codes "server-") (uuid ++ (slash ∷ r)),
    split_first-append slash uuid r h.1,
    h.0,
  )
  | inr e ↦ rw (
    e,
    append_assoc (base loc) (slash ∷ (codes "server-" ++ uuid)) (slash ∷ r),
    strip_prefix-append (base loc) (slash ∷ tagged uuid r),
    strip_prefix-append (slash ∷ []) (tagged uuid r),
    strip_prefix-append (codes "server-") (uuid ++ (slash ∷ r)),
    split_first-append slash uuid r h.1,
    h.0,
  )
]

-- Whatever the base path, the lineage read from the key of a binlog, of a dump or of a dump's
-- sidecar is the server UUID that the key was built for, if that UUID is not empty and holds no
-- slash.
pub server_uuid_from_key_round_trip :
    (loc : S3Location) (uuid name : Str)
    → IsLineage uuid
    → (server_uuid_from_key loc (binlog_key loc uuid name) ≡ some uuid)
      × (server_uuid_from_key loc (full_dump_key loc uuid name) ≡ some uuid)
      × (server_uuid_from_key loc (full_meta_key loc uuid name) ≡ some uuid)
unfolding binlog_key full_dump_key full_meta_key
server_uuid_from_key_round_trip loc uuid name h = (
  rw (append_assoc (server_prefix loc uuid) (codes "/binlog") (slash ∷ name))
      (from_key-prefix loc uuid (codes "binlog/" ++ name) h),
  rw (append_assoc (server_prefix loc uuid) (codes "/full") (slash ∷ (name ++ codes ".sql.gz")))
      (from_key-prefix loc uuid (codes "full/" ++ (name ++ codes ".sql.gz")) h),
  rw (append_assoc (server_prefix loc uuid) (codes "/full") (slash ∷ (name ++ codes ".meta.json")))
      (from_key-prefix loc uuid (codes "full/" ++ (name ++ codes ".meta.json")) h),
)

meta_key_for_dump-append :
    (stem : Str) → meta_key_for_dump (stem ++ codes ".sql.gz") ≡ stem ++ codes ".meta.json"
unfolding meta_key_for_dump
meta_key_for_dump-append stem = rw (strip_suffix-append stem (codes ".sql.gz"), meta_key_for_dump)

-- The sidecar key derived from a dump's key is the one that the sidecar is written under.
pub meta_key_for_dump-full_dump_key :
    (loc : S3Location) (uuid name : Str)
    → meta_key_for_dump (full_dump_key loc uuid name) ≡ full_meta_key loc uuid name
unfolding full_dump_key full_meta_key
meta_key_for_dump-full_dump_key loc uuid name =
    let stem = full_prefix loc uuid ++ (slash ∷ name) in
    rw
      (
        ← append_assoc (full_prefix loc uuid) (slash ∷ name) (codes ".sql.gz"),
        ← append_assoc (full_prefix loc uuid) (slash ∷ name) (codes ".meta.json"),
      )
      (meta_key_for_dump-append stem)
