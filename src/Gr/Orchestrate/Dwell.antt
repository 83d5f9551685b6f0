-- ===== src/Gr/Orchestrate/Dwell.antt =====
-- mysql-wrapper/src/gr.rs, `orchestrate`: what a turn that sees a live group leaves of the wait for a
-- bootstrap and of the clocks of the peers.
use mysql_ha.Prelude.{
  ℕ, ◌≡◌, refl, ap, ◌∙◌, inl, inr, Bool, true, false, Option, none, some, List, is_some, Bool-cases,
  Option-cases, Str, str_eq, is_empty,
}
use mysql_ha.Gr.State.{Answers}
use mysql_ha.Gr.Answers.{
  uuid_collision_peer, live_primary_gtid, adopted_data_verdict, block_size_to_adopt,
}
use mysql_ha.Gr.Orchestrate.Local.{pick_donor, resolve_peer_block_sizes}
use mysql_ha.Gr.Orchestrate.Node.{OrchestrateConfig, Node, Pass, Deed, Progress, then_do}
use mysql_ha.Gr.Orchestrate.Live.{
  on_collision, collision_stage, live_identity, adopt_name, adopt_stage, clone_deeds, credential_of,
  on_compared, divergence_stage, adopted_stage, unknown_stage, on_donor, clone_first_stage,
  on_block_size, block_size_stage, start_stage, gtid_now, been_member_now, picture_of, is_blank,
  size_stages, clone_stages, unknown_stages, data_stages, divergence_stages, name_stages, live_turn,
}
use mysql_ha.Gr.Orchestrate.Stages.{progress}
use mysql_ha.Gr.Orchestrate.Guards.{adopted_node, unknown_node}

-- The node keeps the instant it waits since, and the clocks of its peers.
abbrev SameWait : Node → Node → Type 0
SameWait n m = (m.safe_since ≡ n.safe_since) × (m.gone_tracker ≡ n.gone_tracker)

then_do-keeps_at :
    (n0 n : Node) (deeds : List Deed) (goes_on : Bool) (next : Node → Progress)
    → SameWait n0 n
    → ((m : Node) → SameWait m (next m).node)
    → SameWait n0 (then_do (progress n deeds goes_on) next).node
then_do-keeps_at n0 n deeds true next (wait, clocks) k =
    let (wait', clocks') = k n in (wait' ∙ wait, clocks' ∙ clocks)
then_do-keeps_at n0 n deeds false next h k = h

then_do-keeps :
    (n : Node) (q : Progress) (next : Node → Progress)
    → SameWait n q.node
    → ((m : Node) → SameWait m (next m).node)
    → SameWait n (then_do q next).node
then_do-keeps n q next h k = then_do-keeps_at n q.node q.deeds q.goes_on next h k

collision-keeps :
    (n : Node) (removes : Bool) (o : Option Str) → SameWait n (on_collision n removes o).node
unfolding on_collision
collision-keeps n removes none = (refl, refl)
collision-keeps n true (some peer) = (refl, refl)
collision-keeps n false (some peer) = (refl, refl)

collision_stage-keeps :
    (n : Node) (removes : Bool) (answers : Answers) (o : Option Str)
    → SameWait n (collision_stage n removes answers o).node
unfolding collision_stage
collision_stage-keeps n removes answers none = (refl, refl)
collision_stage-keeps n removes answers (some u) =
    collision-keeps n removes (uuid_collision_peer u answers)

adopt_name-keeps :
    (n : Node) (r : Pass) (name : Str) (g : ℕ) → SameWait n (adopt_name n r name g).node
unfolding adopt_name
adopt_name-keeps n r name g = elim (Bool-cases r.sets_group_name) [
  | inl e ↦ rw e (refl, refl)
  | inr e ↦ rw e (refl, refl)
]

adopt_stage-keeps :
    (n : Node) (r : Pass) (pinned : Option Str) (o : Option (Str × ℕ))
    → SameWait n (adopt_stage n r pinned o).node
unfolding adopt_stage
adopt_stage-keeps n r pinned none = (refl, refl)
adopt_stage-keeps n r pinned (some (name, g)) = elim (Bool-cases (str_eq name n.group_name)) [
  | inl same ↦ rw same (refl, refl)
  | inr differs ↦ elim (Bool-cases (is_some pinned)) [
    | inl fixed ↦ rw (differs, fixed) (refl, refl)
    | inr free ↦ rw (differs, free) (adopt_name-keeps n r name g)
  ]
]

on_compared-node :
    (n : Node) (clone : List Deed) (o : Option (Bool × Bool)) → (on_compared n clone o).node ≡ n
unfolding on_compared
on_compared-node n clone none = refl
on_compared-node n clone (some (b, true)) = refl
on_compared-node n clone (some (b, false)) = refl

divergence-node :
    (n : Node) (compare_sets : Str → Str → Option (Bool × Bool)) (clone : List Deed) (mine : Str)
    (o : Option Str)
    → (divergence_stage n compare_sets clone mine o).node ≡ n
unfolding divergence_stage
divergence-node n compare_sets clone mine none = refl
divergence-node n compare_sets clone mine (some peer) = elim (Bool-cases (is_empty mine)) [
  | inl e ↦ rw e refl
  | inr e ↦ rw e (on_compared-node n clone (compare_sets mine peer))
]

clone_first-node :
    (n : Node) (credential : Str) (group_has i_hold blank : Bool) (o : Option Str)
    → (clone_first_stage n credential group_has i_hold blank o).node ≡ n
unfolding clone_first_stage on_donor
clone_first-node n credential true false true none = refl
clone_first-node n credential true false true (some d) = refl
clone_first-node n credential true true blank o = refl
clone_first-node n credential true false false o = refl
clone_first-node n credential false i_hold blank o = refl

block_size-node :
    (n : Node) (sets : Bool) (mine : Option ℕ) (o : Option Answers)
    → (block_size_stage n sets mine o).node ≡ n
unfolding block_size_stage on_block_size
block_size-node n sets mine none = refl
block_size-node n sets mine (some answers) =
    elim (Option-cases (block_size_to_adopt mine answers)) [
      | inl e ↦ rw (e, on_block_size) refl
      | inr (group, e) ↦ rw (e, on_block_size) refl
    ]

start_stage-keeps : (n : Node) (r : Pass) → SameWait n (start_stage n r).node
unfolding start_stage
start_stage-keeps n r = elim (Bool-cases r.starts) [
  | inl e ↦ rw e (refl, refl)
  | inr e ↦ rw e (refl, refl)
]

abbrev same_wait : (n m : Node) → m ≡ n → SameWait n m
same_wait n m e = (ap (λ k. k.safe_since) e, ap (λ k. k.gone_tracker) e)

data_stages-keeps :
    (c : OrchestrateConfig) (r : Pass) (been : Bool) (n : Node)
    → SameWait n (data_stages c r been n).node
unfolding data_stages unknown_stages clone_stages size_stages
data_stages-keeps c r been n =
    then_do-keeps n
      (adopted_stage n
        (adopted_data_verdict n.volume.pre_gtid (been_member_now n r been) (picture_of r)))
      (unknown_stages c r) (same_wait n _ (adopted_node n _).0)
      λ m.
        then_do-keeps m (unknown_stage m m.volume.pre_gtid (is_blank r) (picture_of r))
          (clone_stages c r)
          (same_wait m _ (unknown_node m m.volume.pre_gtid (is_blank r) (picture_of r)).0)
          λ k.
            then_do-keeps k
              (clone_first_stage k (credential_of c r) (picture_of r).carries_pre_gtid_data
                k.volume.pre_gtid (is_blank r) (pick_donor r.answers))
              (size_stages r) (same_wait k _ (clone_first-node k _ _ _ _ _))
              λ l.
                then_do-keeps l
                  (block_size_stage l r.sets_block_size r.local_block_size
                    (resolve_peer_block_sizes r.ask_block_size r.answers))
                  (λ z. start_stage z r) (same_wait l _ (block_size-node l _ _ _))
                  (λ z. start_stage-keeps z r)

-- A turn that sees a live group leaves no safe verdict standing, and the clocks as they are.
pub live_turn-waits :
    (c : OrchestrateConfig) (r : Pass) (been : Bool) (n : Node)
    → ((live_turn c r been n).node.safe_since ≡ none)
      × ((live_turn c r been n).node.gone_tracker ≡ n.gone_tracker)
unfolding live_turn name_stages divergence_stages
live_turn-waits c r been n =
    let cleared = record n { safe_since = none } in
    then_do-keeps cleared (collision_stage cleared r.removes_auto_cnf r.answers r.server_uuid)
      (name_stages c r been)
      (collision_stage-keeps cleared r.removes_auto_cnf r.answers r.server_uuid)
      λ m.
        then_do-keeps m (adopt_stage m r c.pinned_name (live_identity r.answers))
          (divergence_stages c r been)
          (adopt_stage-keeps m r c.pinned_name (live_identity r.answers))
          λ k.
            then_do-keeps k
              (divergence_stage k r.gtid_compare
                (clone_deeds (pick_donor r.answers) (credential_of c r)) (gtid_now r)
                (live_primary_gtid r.answers))
              (data_stages c r been) (same_wait k _ (divergence-node k _ _ _ _))
              (data_stages-keeps c r been)
