-- ===== src/Pitr/Retention/Merge.antt =====
-- mysql-wrapper/src/pitr.rs: every object that a sweep of all lineages expires is one that the sweep
-- of a single lineage expires, and the other way round.
use mysql_ha.Prelude.{
  ℕ, ◌≡◌, refl, sym, ap, ◌∙◌, subst, ◌⊎◌, inl, inr, true, false, none, some, List, [], ◌∷◌, ◌++◌,
  arith, Bool-cases, Option-cases, In, In-append_left, In-append_right, In-append_cases, In-cons,
  Str, contains, str_eq_refl,
}
use mysql_ha.Pitr.Fulls.{FullBackupRef}
use mysql_ha.Pitr.Retention.Types.{
  LineageObjects, RetentionPlan, empty_plan, ◌then_push◌, expired_keys, dump_keys,
}
use mysql_ha.Pitr.Retention.Lineage.{sweep_lineage, sweep_lineages}

module _ (active_uuid : Str) (now cutoff : ℕ) where
  -- The lineage whose sweep put `x` into the plan's list that `list_of` picks.
  abbrev pub From {ℓ} : {X : Type ℓ} → (RetentionPlan → List X) → X → List LineageObjects → Type ℓ
  From list_of x ls =
      (l : LineageObjects) × (p : RetentionPlan) × In l ls
      × (sweep_lineage active_uuid now cutoff l ≡ some p)
      × In x (list_of p)

  sweep_lineages_cons :
      (l : LineageObjects) (ls : List LineageObjects) (plan : RetentionPlan)
      → sweep_lineages active_uuid now cutoff (l ∷ ls) ≡ some plan
      → (p q : RetentionPlan) × (sweep_lineage active_uuid now cutoff l ≡ some p)
        × (sweep_lineages active_uuid now cutoff ls ≡ some q)
        × (plan ≡ (p then_push q))
  unfolding sweep_lineages
  sweep_lineages_cons l ls plan h = elim (Option-cases (sweep_lineage active_uuid now cutoff l)) [
    | inl e ↦ cc (let k : none ≡ some plan = rw (e, sweep_lineages) at h in k)
    | inr (p, e) ↦ elim (Option-cases (sweep_lineages active_uuid now cutoff ls)) [
      | inl e' ↦ ground arith
      | inr (q, e') ↦ (p, q, e, e', ground arith)
    ]
  ]

  sweep_lineages_nil :
      (plan : RetentionPlan)
      → sweep_lineages active_uuid now cutoff [] ≡ some plan
      → empty_plan ≡ plan
  unfolding sweep_lineages
  sweep_lineages_nil plan h = cc

-- `list_of` picks one of the plan's lists.
module _ {ℓ} {X : Type ℓ} (active_uuid : Str) (now cutoff : ℕ) (list_of : RetentionPlan → List X)
    (list_of_empty : list_of empty_plan ≡ [])
    (list_of_push : (p q : RetentionPlan) → list_of (p then_push q) ≡ list_of p ++ list_of q) where
  pub sweep_lineages-From :
      (x : X) (ls : List LineageObjects) (plan : RetentionPlan)
      → sweep_lineages active_uuid now cutoff ls ≡ some plan
      → In x (list_of plan)
      → From active_uuid now cutoff list_of x ls
  sweep_lineages-From x [] plan h m =
      let none_there : In x [] =
        subst (In x)
          (ap list_of (sym (sweep_lineages_nil active_uuid now cutoff plan h)) ∙ list_of_empty) m in
      elim none_there [ ]
  sweep_lineages-From x (l ∷ ls) plan h m =
      let (p, q, e, e', same) = sweep_lineages_cons active_uuid now cutoff l ls plan h in
      let split : In x (list_of p ++ list_of q) =
        subst (In x) (ap list_of same ∙ list_of_push p q) m in
      elim (In-append_cases (list_of p) (list_of q) split) [
        | inl k ↦ (l, p, In.here, e, k)
        | inr k ↦
            let (l', p', m', s, i) = sweep_lineages-From x ls q e' k in (l', p', In.there m', s, i)
      ]

  pub From-sweep_lineages :
      (l : LineageObjects) (ls : List LineageObjects) (plan : RetentionPlan)
      → sweep_lineages active_uuid now cutoff ls ≡ some plan
      → In l ls
      → (p : RetentionPlan) × (sweep_lineage active_uuid now cutoff l ≡ some p)
        × ((x : X) → In x (list_of p) → In x (list_of plan))
  From-sweep_lineages l [] plan h m = elim m [ ]
  From-sweep_lineages l (k ∷ ls) plan h m =
      let (p, q, e, e', same) = sweep_lineages_cons active_uuid now cutoff k ls plan h in
      let back = sym (ap list_of same ∙ list_of_push p q) in
      elim (In-cons m) [
        | inl here_it ↦
            (p, rw here_it e, λ x i. subst (In x) back (In-append_left (list_of p) (list_of q) i))
        | inr later ↦
            let (p', s, into) = From-sweep_lineages l ls q e' later in
            (p', s, λ x i. subst (In x) back (In-append_right (list_of p) (list_of q) (into x i)))
      ]

-- An expired key is that of a full that is not kept, or of its sidecar.
pub In-expired_keys :
    (meta_key : Str → Str) (kept : List Str) (key : Str) (fulls : List FullBackupRef)
    → In key (expired_keys meta_key kept fulls)
    → (f : FullBackupRef) × In f fulls
      × (contains kept f.dump_key ≡ false)
      × ((key ≡ f.dump_key) ⊎ (key ≡ meta_key f.dump_key))
unfolding expired_keys
In-expired_keys meta_key kept key [] m = elim m [ ]
In-expired_keys meta_key kept key (f ∷ fs) m = elim (Bool-cases (contains kept f.dump_key)) [
  | inl e ↦
      let (g, k, c, o) = In-expired_keys meta_key kept key fs (rw e at m) in (g, In.there k, c, o)
  | inr e ↦
      elim (In-cons (
        let k : In key (f.dump_key ∷ meta_key f.dump_key ∷ expired_keys meta_key kept fs) =
          rw e at m in
        k)) [
          | inl own ↦ (f, In.here, e, inl own)
          | inr rest ↦ elim (In-cons rest) [
            | inl sidecar ↦ (f, In.here, e, inr sidecar)
            | inr later ↦
                let (g, k, c, o) = In-expired_keys meta_key kept key fs later in
                (g, In.there k, c, o)
          ]
        ]
]

pub expired_keys-In :
    (meta_key : Str → Str) (kept : List Str) (f : FullBackupRef) (fulls : List FullBackupRef)
    → In f fulls
    → contains kept f.dump_key ≡ false
    → In f.dump_key (expired_keys meta_key kept fulls)
unfolding expired_keys
expired_keys-In meta_key kept f [] m h = elim m [ ]
expired_keys-In meta_key kept f (g ∷ fs) m h = elim (In-cons m) [
  | inl e ↦ rw (← e, h) In.here
  | inr k ↦
      let rest = expired_keys-In meta_key kept f fs k h in
      elim (Bool-cases (contains kept g.dump_key)) [
        | inl c ↦ rw c rest
        | inr c ↦ rw c (In.there (In.there rest))
      ]
]

pub contains-dump_keys :
    (f : FullBackupRef) (kept : List FullBackupRef)
    → In f kept
    → contains (dump_keys kept) f.dump_key ≡ true
contains-dump_keys f [] m = elim m [ ]
contains-dump_keys f (g ∷ gs) m = elim (In-cons m) [
  | inl e ↦ rw (← e, str_eq_refl f.dump_key) refl
  | inr k ↦ ground (arith, contains-dump_keys f gs k)
]
