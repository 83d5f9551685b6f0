-- ===== src/Gr/Orchestrate/Join.antt =====
-- mysql-wrapper/src/gr.rs, `orchestrate`: what holds of every turn in which a node starts group
-- replication.
use mysql_ha.Prelude.{
  or-cases, ◌≡◌, refl, sym, ap, ◌∙◌, subst, ◌⊎◌, inl, inr, Bool, true, false, Option, none, some,
  any, Str,
}
use mysql_ha.Gr.Answers.{uuid_collision_peer}
use mysql_ha.Gr.Orchestrate.Local.{Volume, has_been_group_member}
use mysql_ha.Gr.Orchestrate.Node.{OrchestrateConfig, Node, Pass, Progress}
use mysql_ha.Gr.Orchestrate.Live.{
  collision_stage, live_identity, adopt_stage, picture_of, been_member_now, divergence_stages,
  name_stages, live_turn,
}
use mysql_ha.Gr.Orchestrate.Loop.{been_member, group_seen, tracked, turn, is_start}
use mysql_ha.Gr.Orchestrate.Stages.{
  is_start-IsLate, collision_stage-quiet, collision_stage-passes, adopt_stage-quiet,
  adopt_stage-passes, GoesBy, SameMarkers,
}
use mysql_ha.Gr.Orchestrate.Reach.{then_do-through}
use mysql_ha.Gr.Orchestrate.Acts.{turn-live}
use mysql_ha.Gr.Orchestrate.Joining.{
  Sized, Sized-through, BaseKept, NotDiverged, divergence_stages-start,
}

-- The data that is older than the node's GTIDs is in the group, or the node has none, or has been
-- a member by its volume or by the name that it goes by.
abbrev pub AdoptedJoin : Pass → Node → Bool → Str → Type 0
AdoptedJoin r n been name =
    (n.volume.pre_gtid ≡ false)
    ⊎ (been ≡ true)
    ⊎ (has_been_group_member n.volume r.membership_gtid_again name ≡ true)
    ⊎ ((picture_of r).carries_pre_gtid_data ≡ true)

has_been-same :
    (v w : Volume) (o : Option Str) (name : Str)
    → w.member ≡ v.member
    → has_been_group_member w o name ≡ has_been_group_member v o name
unfolding has_been_group_member
has_been-same v w none name e = e
has_been-same v w (some set) name e = rw e refl

been_member_now-cases :
    (m : Node) (r : Pass) (been : Bool)
    → been_member_now m r been ≡ true
    → (been ≡ true) ⊎ (has_been_group_member m.volume r.membership_gtid_again m.group_name ≡ true)
unfolding been_member_now
been_member_now-cases m r been h = or-cases been _ h

AdoptedJoin-of :
    (r : Pass) (n m : Node) (been : Bool) (name : Str)
    → SameMarkers n m
    → name ≡ m.group_name
    → (m.volume.pre_gtid ≡ false)
      ⊎ (been_member_now m r been ≡ true)
      ⊎ ((picture_of r).carries_pre_gtid_data ≡ true)
    → AdoptedJoin r n been name
AdoptedJoin-of r n m been name (pre, member) e (inl bare) = inl (sym pre ∙ bare)
AdoptedJoin-of r n m been name (pre, member) e (inr (inr carries)) = inr (inr (inr carries))
AdoptedJoin-of r n m been name (pre, member) e (inr (inl was)) =
    elim (been_member_now-cases m r been was) [
      | inl b ↦ inr (inl b)
      | inr b ↦ inr (
          inr (
            inl (
              sym (has_been-same n.volume m.volume r.membership_gtid_again name member)
              ∙ ap (has_been_group_member m.volume r.membership_gtid_again) e
              ∙ b)))
    ]

BaseKept-same : (r : Pass) (n m : Node) → SameMarkers n m → BaseKept r m → BaseKept r n
BaseKept-same r n m (pre, member) (inl holds) = inl (sym pre ∙ holds)
BaseKept-same r n m (pre, member) (inr rest) = inr rest

-- What a turn that starts group replication has established.
abbrev JoinFacts : Pass → Node → Bool → Progress → Type 0
JoinFacts r n been p =
    (GoesBy (live_identity r.answers) p.node.group_name × Sized r p.deeds)
    × (NotDiverged r × AdoptedJoin r n been p.node.group_name × BaseKept r n)

name_stages-start :
    (c : OrchestrateConfig) (r : Pass) (been : Bool) (n : Node)
    → group_seen r.answers ≡ true
    → any is_start (name_stages c r been n).deeds ≡ true
    → JoinFacts r n been (name_stages c r been n)
unfolding name_stages
name_stages-start c r been n seen h =
    let q = adopt_stage n r c.pinned_name (live_identity r.answers) in
    let quiet : any is_start q.deeds ≡ false =
      adopt_stage-quiet is_start n r c.pinned_name (live_identity r.answers) is_start-IsLate in
    let next = divergence_stages c r been in
    let (goes, late, node) = then_do-through is_start q next q.node quiet (λ g. refl) h in
    let (by, markers) = adopt_stage-passes n r c.pinned_name (live_identity r.answers) goes in
    let (contained, (kept, base, sized, name)) =
      divergence_stages-start c r been q.node seen late in
    let name' : (name_stages c r been n).node.group_name ≡ q.node.group_name =
      ap (λ m. m.group_name) node ∙ name in
    (
      (
        subst (GoesBy (live_identity r.answers)) (sym name') by,
        Sized-through r q next q.node goes refl sized,
      ),
      (
        contained,
        AdoptedJoin-of r n q.node been (name_stages c r been n).node.group_name markers name' kept,
        BaseKept-same r n q.node markers base,
      ),
    )

-- A live member carries no uuid of this node's.
abbrev pub UuidFree : Pass → Type 0
UuidFree r =
    (my_uuid : Str) × (r.server_uuid ≡ some my_uuid)
    × (uuid_collision_peer my_uuid r.answers ≡ none)

live_turn-start :
    (c : OrchestrateConfig) (r : Pass) (been : Bool) (n : Node)
    → group_seen r.answers ≡ true
    → any is_start (live_turn c r been n).deeds ≡ true
    → UuidFree r × JoinFacts r n been (live_turn c r been n)
unfolding live_turn
live_turn-start c r been n seen h =
    let cleared = record n { safe_since = none } in
    let q = collision_stage cleared r.removes_auto_cnf r.answers r.server_uuid in
    let quiet : any is_start q.deeds ≡ false =
      collision_stage-quiet is_start cleared r.removes_auto_cnf r.answers r.server_uuid
        is_start-IsLate in
    let passes = collision_stage-passes cleared r.removes_auto_cnf r.answers r.server_uuid in
    let next = name_stages c r been in
    let (goes, late, node) = then_do-through is_start q next cleared quiet (λ g. (passes g).1) h in
    let (free, same) = passes goes in
    let ((by, sized), (contained, kept, base)) = name_stages-start c r been cleared seen late in
    let name : (live_turn c r been n).node.group_name ≡ (next cleared).node.group_name =
      ap (λ m. m.group_name) node in
    (
      free,
      (
        (
          subst (GoesBy (live_identity r.answers)) (sym name) by,
          Sized-through r q next cleared goes same sized,
        ),
        (contained, subst (AdoptedJoin r n been) (sym name) kept, base),
      ),
    )

turn-start :
    (c : OrchestrateConfig) (r : Pass) (n : Node)
    → any is_start (turn c r n).deeds ≡ true
    → (group_seen r.answers ≡ true) × (UuidFree r × JoinFacts r n (been_member n r) (turn c r n))
turn-start c r n h =
    let (seen, same) = turn-live c r n is_start (refl, refl, λ name. refl) h in
    let h' : any is_start (live_turn c r (been_member n r) (tracked n r)).deeds ≡ true =
      subst (λ p. any is_start p.deeds ≡ true) same h in
    (
      seen,
      subst (λ p. UuidFree r × JoinFacts r n (been_member n r) p) (sym same)
          (live_turn-start c r (been_member n r) (tracked n r) seen h'),
    )

-- A turn that starts group replication has compared the node's GTIDs with the live primary's and
-- found none that the primary lacks, unless the node has none (or cannot read them) or no live
-- primary reports any. Data of the node that is older than its GTIDs is in the group, or the node
-- has been a member. Such data of the group is on the node, or the node has GTIDs of its own, or
-- every live member says that there is none.
pub join_loses_nothing :
    (c : OrchestrateConfig) (r : Pass) (n : Node)
    → any is_start (turn c r n).deeds ≡ true
    → NotDiverged r × AdoptedJoin r n (been_member n r) (turn c r n).node.group_name × BaseKept r n
join_loses_nothing c r n h = let (seen, (free, (identity, kept))) = turn-start c r n h in kept
