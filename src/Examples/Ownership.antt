-- ===== src/Examples/Ownership.antt =====
-- mysql-wrapper/src/pitr.rs at concrete inputs: claims of an archive root.
use mysql_ha.Prelude.{
  split, ℕ, ◌≡◌, refl, Bool, true, false, none, some, List, [], ◌∷◌, In, Str, codes, strip_prefix,
}
use mysql_ha.Pitr.Ownership.{
  ArchiveOwner, ArchiveClaimant, write, refuse, no_history, trim_start, carries_history,
  owned_verdict, archive_ownership_verdict,
}
use mysql_ha.Pitr.Ownership.Claims.{owner_after_all, admitted, admitted_share_environment}

abbrev claimant : Str → Bool → Str → ArchiveClaimant
claimant service_id group_primary executed = record {
  environment_id = codes "env";
  service_id = service_id;
  history = codes "aa";
  group_primary = group_primary;
  executed_gtid_set = executed;
}

abbrev first_owner : ArchiveOwner
first_owner = record {
  environment_id = codes "env";
  history = codes "aa";
  service_ids = codes "s1" ∷ [];
  claimed_at = 5;
}

-- A standalone server that carries the history after another entry.
former_member_carries : carries_history (codes "aa") (codes "bb:1-3,\n aa:1-9") ≡ true
unfolding carries_history trim_start split strip_prefix
former_member_carries = refl

duplicate_refused :
    archive_ownership_verdict (some first_owner) (claimant (codes "s2") false (codes "bb:1")) 9
    ≡ refuse (no_history (codes "s1" ∷ []) (codes "s2"))
unfolding archive_ownership_verdict owned_verdict carries_history trim_start split strip_prefix
duplicate_refused = refl

abbrev claims : List (ArchiveClaimant × ℕ)
claims =
    (claimant (codes "s1") false [], 5)
    ∷ (claimant (codes "s2") false (codes "bb:1"), 9)
    ∷ (claimant (codes "s3") true (codes "bb:1"), 12)
    ∷ []

third_admitted : In (claimant (codes "s3") true (codes "bb:1")) (admitted none claims)
unfolding admitted archive_ownership_verdict owned_verdict carries_history trim_start split
    strip_prefix
third_admitted = In.there In.here

admitted_share_environment_example :
    (owner : ArchiveOwner) × (owner_after_all none claims ≡ some owner)
    × (owner.environment_id ≡ codes "env")
    × In (codes "s3") owner.service_ids
admitted_share_environment_example =
    admitted_share_environment none claims (claimant (codes "s3") true (codes "bb:1"))
      third_admitted

first_claim : archive_ownership_verdict none (claimant (codes "s1") false []) 5 ≡ write first_owner
unfolding archive_ownership_verdict
first_claim = refl
