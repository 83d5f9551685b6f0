-- ===== src/Gr/Orchestrate/Guards.antt =====
-- mysql-wrapper/src/gr.rs, `orchestrate`: the stages that guard a node's data, from the comparison
-- with the live primary to the block size: what it takes for each to let the turn go on.
use mysql_ha.Prelude.{
  ◌≡◌, refl, ◌⊎◌, inl, inr, Bool, true, false, Option, none, some, List, [], ◌∷◌, arith, Bool-cases,
  Option-cases, first, any, Str, is_empty,
}
use mysql_ha.Gr.Bootstrap.{GtidCompare}
use mysql_ha.Gr.Answers.{
  GroupPreGtidPicture, AdoptedDataVerdict, not_applicable, group_carries_it, incomplete, refuse,
  adopted_data_verdict,
}
use mysql_ha.Gr.Orchestrate.Node.{Node, Deed, clone_from}
use mysql_ha.Gr.Orchestrate.Live.{
  on_compared, divergence_stage, adopted_stage, unknown_stage, on_donor, clone_first_stage,
  clone_deeds,
}
use mysql_ha.Gr.Orchestrate.Loop.{is_clone}

-- No transaction of the node is missing on the live primary, as far as it can be told.
abbrev pub Contained : GtidCompare → Str → Option Str → Type 0
Contained compare_sets mine primary =
    (mine ≡ [])
    ⊎ (primary ≡ none)
    ⊎ ((peer : Str) × (peer_sub_mine : Bool) × (primary ≡ some peer)
        × (compare_sets mine peer ≡ some (peer_sub_mine, true)))

-- Some transaction of the node is missing on the live primary.
abbrev pub Diverged : GtidCompare → Str → Option Str → Type 0
Diverged compare_sets mine primary =
    (is_empty mine ≡ false)
    × (peer : Str) × (peer_sub_mine : Bool) × (primary ≡ some peer)
    × (compare_sets mine peer ≡ some (peer_sub_mine, false))

on_compared-passes :
    (n : Node) (clone : List Deed) (o : Option (Bool × Bool))
    → (on_compared n clone o).goes_on ≡ true
    → ((peer_sub_mine : Bool) × (o ≡ some (peer_sub_mine, true)))
      × ((on_compared n clone o).node ≡ n)
      × ((on_compared n clone o).deeds ≡ [])
unfolding on_compared
on_compared-passes n clone none h = cc
on_compared-passes n clone (some (b, true)) h = ((b, refl), refl, refl)
on_compared-passes n clone (some (b, false)) h = cc

is_empty-nil : (s : Str) → is_empty s ≡ true → s ≡ []
is_empty-nil [] h = refl
is_empty-nil (x ∷ xs) h = cc

pub divergence_stage-passes :
    (n : Node) (compare_sets : GtidCompare) (clone : List Deed) (mine : Str) (o : Option Str)
    → (divergence_stage n compare_sets clone mine o).goes_on ≡ true
    → Contained compare_sets mine o
      × ((divergence_stage n compare_sets clone mine o).node ≡ n)
      × ((divergence_stage n compare_sets clone mine o).deeds ≡ [])
unfolding divergence_stage
divergence_stage-passes n compare_sets clone mine none h = (inr (inl refl), refl, refl)
divergence_stage-passes n compare_sets clone mine (some peer) h =
    elim (Bool-cases (is_empty mine)) [
      | inl blank ↦ rw blank (inl (is_empty-nil mine blank), refl, refl)
      | inr filled ↦
          let passes : (on_compared n clone (compare_sets mine peer)).goes_on ≡ true =
            let x = rw filled at h in x in
          let ((b, e), same, quiet) = on_compared-passes n clone (compare_sets mine peer) passes in
          rw filled (inr (inr (peer, b, refl, e)), same, quiet)
    ]

pub adopted_stage-passes :
    (n : Node) (i_hold been_member : Bool) (picture : GroupPreGtidPicture)
    → (adopted_stage n (adopted_data_verdict i_hold been_member picture)).goes_on ≡ true
    → (i_hold ≡ false) ⊎ (been_member ≡ true) ⊎ (picture.carries_pre_gtid_data ≡ true)
unfolding adopted_stage adopted_data_verdict
adopted_stage-passes n false been_member picture h = inl refl
adopted_stage-passes n true true picture h = inr (inl refl)
adopted_stage-passes n true false picture h = elim (Bool-cases picture.carries_pre_gtid_data) [
  | inl carries ↦ inr (inr carries)
  | inr bare ↦ elim (Option-cases (first picture.unknown)) [
    | inl e ↦ cc (let x : false ≡ true = rw (bare, e) at h in x)
    | inr (host, e) ↦ cc (let x : false ≡ true = rw (bare, e) at h in x)
  ]
]

pub adopted_node :
    (n : Node) (v : AdoptedDataVerdict)
    → ((adopted_stage n v).node ≡ n) × ((adopted_stage n v).deeds ≡ [])
unfolding adopted_stage
adopted_node n not_applicable = (refl, refl)
adopted_node n group_carries_it = (refl, refl)
adopted_node n (incomplete hosts) = (refl, refl)
adopted_node n (refuse hosts) = (refl, refl)

pub unknown_node :
    (n : Node) (i_hold blank : Bool) (picture : GroupPreGtidPicture)
    → ((unknown_stage n i_hold blank picture).node ≡ n)
      × ((unknown_stage n i_hold blank picture).deeds ≡ [])
unfolding unknown_stage
unknown_node n i_hold blank picture = ground arith

-- A node without base data and without GTIDs of its own joins a group in which every live member
-- can tell that there is no base data.
abbrev pub BaseKnown : Bool → Bool → GroupPreGtidPicture → Type 0
BaseKnown i_hold blank picture =
    (i_hold ≡ true)
    ⊎ (blank ≡ false)
    ⊎ (picture.carries_pre_gtid_data ≡ true)
    ⊎ (first picture.unknown ≡ none)

pub unknown_stage-passes :
    (n : Node) (i_hold blank : Bool) (picture : GroupPreGtidPicture)
    → (unknown_stage n i_hold blank picture).goes_on ≡ true
    → BaseKnown i_hold blank picture
unfolding unknown_stage
unknown_stage-passes n true blank picture h = inl refl
unknown_stage-passes n false false picture h = inr (inl refl)
unknown_stage-passes n false true picture h = elim (Bool-cases picture.carries_pre_gtid_data) [
  | inl carries ↦ inr (inr (inl carries))
  | inr bare ↦ elim (Option-cases (first picture.unknown)) [
    | inl e ↦ inr (inr (inr e))
    | inr (host, e) ↦ cc (let x : false ≡ true = rw (bare, e) at h in x)
  ]
]

-- The conditions under which a group is cloned instead of joined.
abbrev pub MustClone : Bool → Bool → Bool → Type 0
MustClone group_has i_hold blank = (group_has ≡ true) × (i_hold ≡ false) × (blank ≡ true)

pub clone_first_stage-passes :
    (n : Node) (credential : Str) (group_has i_hold blank : Bool) (donor : Str)
    → (clone_first_stage n credential group_has i_hold blank (some donor)).goes_on ≡ true
    → ((group_has ≡ false) ⊎ (i_hold ≡ true) ⊎ (blank ≡ false))
      × ((clone_first_stage n credential group_has i_hold blank (some donor)).node ≡ n)
      × ((clone_first_stage n credential group_has i_hold blank (some donor)).deeds ≡ [])
unfolding clone_first_stage on_donor
clone_first_stage-passes n credential false i_hold blank donor h = (inl refl, refl, refl)
clone_first_stage-passes n credential true true blank donor h = (inr (inl refl), refl, refl)
clone_first_stage-passes n credential true false false donor h = (inr (inr refl), refl, refl)
clone_first_stage-passes n credential true false true donor h = cc

-- A clone is asked of the donor.
pub clone_first_stage-clones :
    (n : Node) (credential : Str) (group_has i_hold blank : Bool) (donor : Option Str)
    → any is_clone (clone_first_stage n credential group_has i_hold blank donor).deeds ≡ true
    → MustClone group_has i_hold blank
      × ((clone_first_stage n credential group_has i_hold blank donor).deeds
          ≡ clone_deeds donor credential)
unfolding clone_first_stage on_donor
clone_first_stage-clones n credential true false true none h = cc
clone_first_stage-clones n credential true false true (some d) h = ((refl, refl, refl), refl)
clone_first_stage-clones n credential true true blank donor h = cc
clone_first_stage-clones n credential true false false donor h = cc
clone_first_stage-clones n credential false i_hold blank donor h = cc

-- No clone is meant.
abbrev pub NoClone : (Deed → Bool) → Type 0
NoClone p = (donor credential : Str) → p (clone_from donor credential) ≡ false

on_compared-quiet :
    (p : Deed → Bool) (n : Node) (donor : Option Str) (credential : Str) (o : Option (Bool × Bool))
    → NoClone p
    → any p (on_compared n (clone_deeds donor credential) o).deeds ≡ false
unfolding on_compared
on_compared-quiet p n donor credential none no_clone = refl
on_compared-quiet p n donor credential (some (b, true)) no_clone = refl
on_compared-quiet p n none credential (some (b, false)) no_clone = refl
on_compared-quiet p n (some d) credential (some (b, false)) no_clone =
    rw (no_clone d credential) refl

pub divergence_stage-quiet :
    (p : Deed → Bool) (n : Node) (compare_sets : GtidCompare) (donor : Option Str)
    (credential mine : Str) (o : Option Str)
    → NoClone p
    → any p (divergence_stage n compare_sets (clone_deeds donor credential) mine o).deeds ≡ false
unfolding divergence_stage
divergence_stage-quiet p n compare_sets donor credential mine none no_clone = refl
divergence_stage-quiet p n compare_sets donor credential mine (some peer) no_clone =
    elim (Bool-cases (is_empty mine)) [
      | inl blank ↦ rw blank refl
      | inr filled ↦
          rw filled (on_compared-quiet p n donor credential (compare_sets mine peer) no_clone)
    ]

pub clone_first_stage-quiet :
    (p : Deed → Bool) (n : Node) (credential : Str) (group_has i_hold blank : Bool)
    (donor : Option Str)
    → NoClone p
    → any p (clone_first_stage n credential group_has i_hold blank donor).deeds ≡ false
unfolding clone_first_stage on_donor
clone_first_stage-quiet p n credential true false true none no_clone = refl
clone_first_stage-quiet p n credential true false true (some d) no_clone =
    rw (no_clone d credential) refl
clone_first_stage-quiet p n credential true true blank donor no_clone = refl
clone_first_stage-quiet p n credential true false false donor no_clone = refl
clone_first_stage-quiet p n credential false i_hold blank donor no_clone = refl

on_compared-clones :
    (n : Node) (clone : List Deed) (o : Option (Bool × Bool))
    → any is_clone (on_compared n clone o).deeds ≡ true
    → ((peer_sub_mine : Bool) × (o ≡ some (peer_sub_mine, false)))
      × ((on_compared n clone o).deeds ≡ clone)
unfolding on_compared
on_compared-clones n clone none h = cc
on_compared-clones n clone (some (b, true)) h = cc
on_compared-clones n clone (some (b, false)) h = ((b, refl), refl)

-- A clone is asked for where the histories diverged.
pub divergence_stage-clones :
    (n : Node) (compare_sets : GtidCompare) (clone : List Deed) (mine : Str) (o : Option Str)
    → any is_clone (divergence_stage n compare_sets clone mine o).deeds ≡ true
    → Diverged compare_sets mine o × ((divergence_stage n compare_sets clone mine o).deeds ≡ clone)
unfolding divergence_stage
divergence_stage-clones n compare_sets clone mine none h = cc
divergence_stage-clones n compare_sets clone mine (some peer) h =
    elim (Bool-cases (is_empty mine)) [
      | inl blank ↦ cc (let x : false ≡ true = rw blank at h in x)
      | inr filled ↦
          let acts : any is_clone (on_compared n clone (compare_sets mine peer)).deeds ≡ true =
            let x = rw filled at h in x in
          let ((b, e), same) = on_compared-clones n clone (compare_sets mine peer) acts in
          rw filled ((refl, peer, b, refl, e), same)
    ]
