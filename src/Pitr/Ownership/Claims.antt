-- ===== src/Pitr/Ownership/Claims.antt =====
-- mysql-wrapper/src/pitr.rs: claims of an archive root one after another.
use mysql_ha.Prelude.{
  ℕ, ◌≡◌, refl, sym, subst, ◌⊎◌, inl, inr, Bool, true, false, Option, none, some, List, [], ◌∷◌,
  if◌then◌else◌, Bool-cases, any, In, In-append_left, In-append_right, In-cons, any-true,
  any_witness, Str, str_eq, str_eq_iff, str_eq_refl,
}
use mysql_ha.Pitr.Ownership.{
  ArchiveOwner, ArchiveClaimant, OwnershipVerdict, write, keep, refuse, carries_history,
  record_service, owned_verdict, archive_ownership_verdict,
}

-- The record in the root once a verdict is applied, and whether the server archives.
abbrev pub owner_after : Option ArchiveOwner → OwnershipVerdict → Option ArchiveOwner
owner_after existing (write owner) = some owner
owner_after existing keep = existing
owner_after existing (refuse reason) = existing

abbrev pub is_admitted : OwnershipVerdict → Bool
is_admitted (write owner) = true
is_admitted keep = true
is_admitted (refuse reason) = false

-- The record after the claims, each of which is judged by what the ones before it left.
unfoldable pub owner_after_all :
    Option ArchiveOwner → List (ArchiveClaimant × ℕ) → Option ArchiveOwner
owner_after_all existing [] = existing
owner_after_all existing ((me, now) ∷ rest) =
    owner_after_all (owner_after existing (archive_ownership_verdict existing me now)) rest

-- The claimants that were let in.
unfoldable pub admitted : Option ArchiveOwner → List (ArchiveClaimant × ℕ) → List ArchiveClaimant
admitted existing [] = []
admitted existing ((me, now) ∷ rest) =
    let later = admitted (owner_after existing (archive_ownership_verdict existing me now)) rest in
    if is_admitted (archive_ownership_verdict existing me now) then me ∷ later else later

-- A record of the environment in which the services are named.
abbrev pub Names : Str → List Str → Option ArchiveOwner → Type 0
Names environment services none = ⊥
Names environment services (some owner) =
    (owner.environment_id ≡ environment) × ((id : Str) → In id services → In id owner.service_ids)

any-str_eq : (s : Str) (xs : List Str) → any (λ x. str_eq x s) xs ≡ true → In s xs
any-str_eq s xs h =
    let (x, m, e) = any_witness (λ x. str_eq x s) xs h in
    subst (λ (y : Str). In y xs) ((str_eq_iff x s).0 e) m

-- The three ways in which the owner's record judges a claimant.
owned_cases :
    (owner : ArchiveOwner) (me : ArchiveClaimant)
    → (is_admitted (owned_verdict owner me) ≡ false)
        × (owner_after (some owner) (owned_verdict owner me) ≡ some owner)
      ⊎ (owner.environment_id ≡ me.environment_id)
        × ((owned_verdict owner me ≡ keep) × In me.service_id owner.service_ids
            ⊎ (owned_verdict owner me ≡ record_service owner me.service_id))
unfolding owned_verdict
owned_cases owner me = elim (Bool-cases (str_eq owner.environment_id me.environment_id)) [
  | inr other ↦ inl (rw other (refl, refl))
  | inl same ↦
      let env = (str_eq_iff owner.environment_id me.environment_id).0 same in
      elim (Bool-cases (any (λ id. str_eq id me.service_id) owner.service_ids)) [
        | inl recorded ↦ inr (
          env,
          inl (rw (same, recorded) refl, any-str_eq me.service_id owner.service_ids recorded),
        )
        | inr fresh ↦ elim (Bool-cases me.group_primary) [
          | inl primary ↦ inr (env, inr (rw (same, fresh, primary) refl))
          | inr standalone ↦
              elim (Bool-cases (carries_history owner.history me.executed_gtid_set)) [
                | inl carries ↦ inr (env, inr (rw (same, fresh, standalone, carries) refl))
                | inr stranger ↦ inl (rw (same, fresh, standalone, stranger) (refl, refl))
              ]
        ]
      ]
]

-- A claim leaves the environment of the record and the services it names.
claim_keeps :
    (existing : Option ArchiveOwner) (me : ArchiveClaimant) (now : ℕ) (environment : Str)
    (services : List Str)
    → Names environment services existing
    → Names environment services (owner_after existing (archive_ownership_verdict existing me now))
unfolding archive_ownership_verdict
claim_keeps none me now environment services n = absurd n
claim_keeps (some owner) me now environment services (env, all_named) =
    elim (owned_cases owner me) [
      | inl (out, same) ↦ rw same (env, all_named)
      | inr (e, inl (kept, named)) ↦ rw kept (env, all_named)
      | inr (e, inr recorded) ↦ rw recorded (env, λ id m. In-append_left _ _ (all_named id m))
    ]

-- A claimant that is let in is named by the record, which is of its environment.
claim-Names :
    (existing : Option ArchiveOwner) (me : ArchiveClaimant) (now : ℕ)
    → is_admitted (archive_ownership_verdict existing me now) ≡ true
    → Names me.environment_id
        (me.service_id ∷ [])
        (owner_after existing (archive_ownership_verdict existing me now))
unfolding archive_ownership_verdict
claim-Names none me now h = (refl, λ id m. m)
claim-Names (some owner) me now h = elim (owned_cases owner me) [
  | inl (out, same) ↦ cc
  | inr (e, inl (kept, named)) ↦ rw kept (
    e,
    λ id m. elim (In-cons m) [
      | inl own ↦ subst (λ (y : Str). In y owner.service_ids) (sym own) named
      | inr later ↦ elim later [ ]
    ],
  )
  | inr (e, inr recorded) ↦ rw recorded (e, λ id m. In-append_right owner.service_ids _ m)
]

claims_keep :
    (existing : Option ArchiveOwner) (claims : List (ArchiveClaimant × ℕ)) (environment : Str)
    (services : List Str)
    → Names environment services existing
    → Names environment services (owner_after_all existing claims)
unfolding owner_after_all
claims_keep existing [] environment services n = n
claims_keep existing ((me, now) ∷ rest) environment services n =
    claims_keep (owner_after existing (archive_ownership_verdict existing me now)) rest environment
      services (claim_keeps existing me now environment services n)

admitted-Names :
    (existing : Option ArchiveOwner) (claims : List (ArchiveClaimant × ℕ)) (me : ArchiveClaimant)
    → In me (admitted existing claims)
    → Names me.environment_id (me.service_id ∷ []) (owner_after_all existing claims)
unfolding admitted owner_after_all
admitted-Names existing [] me m = elim m [ ]
admitted-Names existing ((first_claimant, now) ∷ rest) me m =
    let verdict = archive_ownership_verdict existing first_claimant now in
    elim (Bool-cases (is_admitted (archive_ownership_verdict existing first_claimant now))) [
      | inl let_in ↦
          let m' : In me (first_claimant ∷ admitted (owner_after existing verdict) rest) =
            rw let_in at m in
          elim (In-cons m') [
            | inl own ↦
                subst
                  (λ (c : ArchiveClaimant).
                    Names c.environment_id (c.service_id ∷ [])
                      (owner_after_all (owner_after existing verdict) rest))
                  (sym own)
                  (claims_keep (owner_after existing verdict) rest first_claimant.environment_id
                    (first_claimant.service_id ∷ [])
                    (claim-Names existing first_claimant now let_in))
            | inr later ↦ admitted-Names (owner_after existing verdict) rest me later
          ]
      | inr kept_out ↦
          let m' : In me (admitted (owner_after existing verdict) rest) = rw kept_out at m in
          admitted-Names (owner_after existing verdict) rest me m'
    ]

owner_of_Names :
    (environment id : Str) (owner : Option ArchiveOwner)
    → Names environment (id ∷ []) owner
    → (o : ArchiveOwner) × (owner ≡ some o) × (o.environment_id ≡ environment) × In id o.service_ids
owner_of_Names environment id none n = absurd n
owner_of_Names environment id (some o) (env, all_named) = (o, refl, env, all_named id In.here)

-- Whatever claims follow one another on a root, the record at the end names the environment and
-- lists the service of each server that was let in; so no two of them are of different
-- environments.
pub admitted_share_environment :
    (existing : Option ArchiveOwner) (claims : List (ArchiveClaimant × ℕ)) (me : ArchiveClaimant)
    → In me (admitted existing claims)
    → (owner : ArchiveOwner) × (owner_after_all existing claims ≡ some owner)
      × (owner.environment_id ≡ me.environment_id)
      × In me.service_id owner.service_ids
admitted_share_environment existing claims me m =
    owner_of_Names me.environment_id me.service_id (owner_after_all existing claims)
      (admitted-Names existing claims me m)

owned_keep :
    (owner : ArchiveOwner) (me : ArchiveClaimant)
    → owner.environment_id ≡ me.environment_id
    → In me.service_id owner.service_ids
    → owned_verdict owner me ≡ keep
unfolding owned_verdict
owned_keep owner me env named =
    let same = (str_eq_iff owner.environment_id me.environment_id).1 env in
    let recorded : any (λ id. str_eq id me.service_id) owner.service_ids ≡ true =
      any-true (λ id. str_eq id me.service_id) me.service_id owner.service_ids named
        (str_eq_refl me.service_id) in
    rw (same, recorded) refl

-- A claim settles: whatever record a verdict wrote, the server that it was written for keeps the
-- root from then on, with nothing left to write.
pub archive_ownership_settles :
    (existing : Option ArchiveOwner) (me : ArchiveClaimant) (now later : ℕ) (owner : ArchiveOwner)
    → archive_ownership_verdict existing me now ≡ write owner
    → archive_ownership_verdict (some owner) me later ≡ keep
unfolding archive_ownership_verdict
archive_ownership_settles existing me now later owner h =
    let let_in : is_admitted (archive_ownership_verdict existing me now) ≡ true = rw h refl in
    let n = claim-Names existing me now let_in in
    let n' : Names me.environment_id (me.service_id ∷ []) (owner_after existing (write owner)) =
      subst
        (λ (v : OwnershipVerdict).
          Names me.environment_id (me.service_id ∷ []) (owner_after existing v))
        h n in
    owned_keep owner me n'.0 (n'.1 me.service_id In.here)
