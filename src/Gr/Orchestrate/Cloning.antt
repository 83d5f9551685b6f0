-- ===== src/Gr/Orchestrate/Cloning.antt =====
-- mysql-wrapper/src/gr.rs, `orchestrate`: when a node's data is replaced by a clone.
use mysql_ha.Prelude.{
  ◌≡◌, refl, sym, ap, ◌∙◌, subst, ◌⊎◌, inl, inr, Bool, true, false, none, some, List, [], ◌∷◌, any,
  In, Str, codes, is_str,
}
use mysql_ha.Gr.State.{GrState, PeerAnswer}
use mysql_ha.Gr.Answers.{live_primary_gtid, adopted_data_verdict}
use mysql_ha.Gr.Orchestrate.Local.{pick_donor}
use mysql_ha.Gr.Orchestrate.Node.{
  OrchestrateConfig, Node, Pass, Deed, clone_from, Progress, then_do,
}
use mysql_ha.Gr.Orchestrate.Live.{
  collision_stage, live_identity, adopt_stage, clone_deeds, credential_of, divergence_stage,
  adopted_stage, unknown_stage, clone_first_stage, gtid_now, been_member_now, picture_of, is_blank,
  size_stages, clone_stages, unknown_stages, data_stages, divergence_stages, name_stages, live_turn,
}
use mysql_ha.Gr.Orchestrate.Loop.{been_member, tracked, turn, is_clone}
use mysql_ha.Gr.Orchestrate.Stages.{
  is_clone-IsLate, collision_stage-quiet, collision_stage-passes, adopt_stage-quiet,
  adopt_stage-passes, then_do-deeds,
}
use mysql_ha.Gr.Orchestrate.Guards.{
  Diverged, divergence_stage-passes, divergence_stage-clones, adopted_node, unknown_node, MustClone,
  clone_first_stage-clones,
}
use mysql_ha.Gr.Orchestrate.Donor.{pick_donor_prefers_primary, reports_primary}
use mysql_ha.Gr.Orchestrate.Reach.{then_do-through, then_do-In, then_do-earlier}
use mysql_ha.Gr.Orchestrate.Acts.{size_stages-quiet, turn-live}

-- The node's own transactions are not all on the live primary.
abbrev pub HasDiverged : Pass → Type 0
HasDiverged r = Diverged r.gtid_compare (gtid_now r) (live_primary_gtid r.answers)

-- The group has data older than its GTIDs, and the node neither has it nor any GTIDs.
abbrev pub NeedsBase : Pass → Node → Type 0
NeedsBase r n = MustClone (picture_of r).carries_pre_gtid_data n.volume.pre_gtid (is_blank r)

-- The deeds of the donor that is picked are among these.
abbrev Cloned : OrchestrateConfig → Pass → List Deed → Type 0
Cloned c r deeds =
    (donor : Str)
    → pick_donor r.answers ≡ some donor
    → In (clone_from donor (credential_of c r)) deeds

Cloned-here :
    (c : OrchestrateConfig) (r : Pass) (deeds : List Deed)
    → deeds ≡ clone_deeds (pick_donor r.answers) (credential_of c r)
    → Cloned c r deeds
Cloned-here c r deeds e donor picked =
    let same : deeds ≡ clone_from donor (credential_of c r) ∷ [] =
      e ∙ ap (λ o. clone_deeds o (credential_of c r)) picked in
    subst (λ d. In (clone_from donor (credential_of c r)) d) (sym same) In.here

Cloned-later :
    (c : OrchestrateConfig) (r : Pass) (q : Progress) (next : Node → Progress) (n : Node)
    → q.goes_on ≡ true
    → q.node ≡ n
    → Cloned c r (next n).deeds
    → Cloned c r (then_do q next).deeds
Cloned-later c r q next n goes same rest donor picked =
    then_do-In (clone_from donor (credential_of c r)) q next n goes same (rest donor picked)

clone_stages-clone :
    (c : OrchestrateConfig) (r : Pass) (n : Node)
    → any is_clone (clone_stages c r n).deeds ≡ true
    → NeedsBase r n × Cloned c r (clone_stages c r n).deeds
unfolding clone_stages
clone_stages-clone c r n h =
    let credential = credential_of c r in
    let carries = (picture_of r).carries_pre_gtid_data in
    let q =
      clone_first_stage n credential carries n.volume.pre_gtid (is_blank r)
        (pick_donor r.answers) in
    elim (then_do-deeds is_clone q (size_stages r) h) [
      | inl first_does ↦
          let (needs, done) =
            clone_first_stage-clones n credential carries n.volume.pre_gtid (is_blank r)
              (pick_donor r.answers) first_does in
          let first_done = Cloned-here c r q.deeds done in
          (
            needs,
            λ donor picked.
                then_do-earlier (clone_from donor credential) q (size_stages r)
                  (first_done donor picked),
          )
      | inr (goes, late) ↦
          let quiet : any is_clone (size_stages r q.node).deeds ≡ false =
            size_stages-quiet is_clone r q.node (is_clone-IsLate, refl, refl) in
          cc
    ]

unknown_stages-clone :
    (c : OrchestrateConfig) (r : Pass) (n : Node)
    → any is_clone (unknown_stages c r n).deeds ≡ true
    → NeedsBase r n × Cloned c r (unknown_stages c r n).deeds
unfolding unknown_stages
unknown_stages-clone c r n h =
    let q = unknown_stage n n.volume.pre_gtid (is_blank r) (picture_of r) in
    let (same, none_done) = unknown_node n n.volume.pre_gtid (is_blank r) (picture_of r) in
    let quiet : any is_clone q.deeds ≡ false = ap (any is_clone) none_done in
    let (goes, late, node) = then_do-through is_clone q (clone_stages c r) n quiet (λ g. same) h in
    let (needs, cloned) = clone_stages-clone c r n late in
    (needs, Cloned-later c r q (clone_stages c r) n goes same cloned)

data_stages-clone :
    (c : OrchestrateConfig) (r : Pass) (been : Bool) (n : Node)
    → any is_clone (data_stages c r been n).deeds ≡ true
    → NeedsBase r n × Cloned c r (data_stages c r been n).deeds
unfolding data_stages
data_stages-clone c r been n h =
    let verdict =
      adopted_data_verdict n.volume.pre_gtid (been_member_now n r been) (picture_of r) in
    let q = adopted_stage n verdict in
    let (same, none_done) = adopted_node n verdict in
    let quiet : any is_clone q.deeds ≡ false = ap (any is_clone) none_done in
    let (goes, late, node) =
      then_do-through is_clone q (unknown_stages c r) n quiet (λ g. same) h in
    let (needs, cloned) = unknown_stages-clone c r n late in
    (needs, Cloned-later c r q (unknown_stages c r) n goes same cloned)

abbrev CloneFacts : OrchestrateConfig → Pass → Node → List Deed → Type 0
CloneFacts c r n deeds = (HasDiverged r ⊎ NeedsBase r n) × Cloned c r deeds

divergence_stages-clone :
    (c : OrchestrateConfig) (r : Pass) (been : Bool) (n : Node)
    → any is_clone (divergence_stages c r been n).deeds ≡ true
    → CloneFacts c r n (divergence_stages c r been n).deeds
unfolding divergence_stages
divergence_stages-clone c r been n h =
    let clone = clone_deeds (pick_donor r.answers) (credential_of c r) in
    let primary = live_primary_gtid r.answers in
    let q = divergence_stage n r.gtid_compare clone (gtid_now r) primary in
    let passes = divergence_stage-passes n r.gtid_compare clone (gtid_now r) primary in
    elim (then_do-deeds is_clone q (data_stages c r been) h) [
      | inl first_does ↦
          let (apart, done) =
            divergence_stage-clones n r.gtid_compare clone (gtid_now r) primary first_does in
          let first_done = Cloned-here c r q.deeds done in
          (
            inl apart,
            λ donor picked.
                then_do-earlier (clone_from donor (credential_of c r)) q (data_stages c r been)
                  (first_done donor picked),
          )
      | inr (goes, late) ↦
          let (contained, same, none_done) = passes goes in
          let late' : any is_clone (data_stages c r been n).deeds ≡ true =
            subst (λ m. any is_clone (data_stages c r been m).deeds ≡ true) same late in
          let (needs, cloned) = data_stages-clone c r been n late' in
          (inr needs, Cloned-later c r q (data_stages c r been) n goes same cloned)
    ]

name_stages-clone :
    (c : OrchestrateConfig) (r : Pass) (been : Bool) (n : Node)
    → any is_clone (name_stages c r been n).deeds ≡ true
    → CloneFacts c r n (name_stages c r been n).deeds
unfolding name_stages
name_stages-clone c r been n h =
    let q = adopt_stage n r c.pinned_name (live_identity r.answers) in
    let next = divergence_stages c r been in
    let quiet : any is_clone q.deeds ≡ false =
      adopt_stage-quiet is_clone n r c.pinned_name (live_identity r.answers) is_clone-IsLate in
    let (goes, late, node) = then_do-through is_clone q next q.node quiet (λ g. refl) h in
    let (by, (pre, member)) = adopt_stage-passes n r c.pinned_name (live_identity r.answers) goes in
    let (why, cloned) = divergence_stages-clone c r been q.node late in
    (
      elim why [
        | inl apart ↦ inl apart
        | inr (carries, bare, blank) ↦ inr (carries, sym pre ∙ bare, blank)
      ],
      Cloned-later c r q next q.node goes refl cloned,
    )

live_turn-clone :
    (c : OrchestrateConfig) (r : Pass) (been : Bool) (n : Node)
    → any is_clone (live_turn c r been n).deeds ≡ true
    → CloneFacts c r n (live_turn c r been n).deeds
unfolding live_turn
live_turn-clone c r been n h =
    let cleared = record n { safe_since = none } in
    let q = collision_stage cleared r.removes_auto_cnf r.answers r.server_uuid in
    let next = name_stages c r been in
    let quiet : any is_clone q.deeds ≡ false =
      collision_stage-quiet is_clone cleared r.removes_auto_cnf r.answers r.server_uuid
        is_clone-IsLate in
    let passes = collision_stage-passes cleared r.removes_auto_cnf r.answers r.server_uuid in
    let (goes, late, node) = then_do-through is_clone q next cleared quiet (λ g. (passes g).1) h in
    let (free, same) = passes goes in
    let (why, cloned) = name_stages-clone c r been cleared late in
    (why, Cloned-later c r q next cleared goes same cloned)

-- A turn that replaces the node's data by a clone has read a transaction of the node's own that
-- the live primary lacks, or has read no GTIDs of its own (there are none, or the query failed)
-- and finds data in the group that is older than the group's GTIDs and not on the node. The clone
-- is taken from a live member, which reports the primary role exactly if one of the live members
-- does, with the recovery credential of the moment.
pub clone_justified :
    (c : OrchestrateConfig) (r : Pass) (n : Node)
    → any is_clone (turn c r n).deeds ≡ true
    → (HasDiverged r ⊎ NeedsBase r n)
      × (donor : Str) × (s : GrState) × In (clone_from donor (credential_of c r)) (turn c r n).deeds
      × In (donor, PeerAnswer.state s) r.answers
      × (s.group_active ≡ true)
      × (is_str s.member_role (codes "PRIMARY") ≡ any reports_primary r.answers)
clone_justified c r n h =
    let (seen, same) = turn-live c r n is_clone (refl, refl, λ name. refl) h in
    let h' : any is_clone (live_turn c r (been_member n r) (tracked n r)).deeds ≡ true =
      subst (λ p. any is_clone p.deeds ≡ true) same h in
    let (why, cloned) = live_turn-clone c r (been_member n r) (tracked n r) h' in
    let (donor, s, picked, m, live, role) = pick_donor_prefers_primary r.answers seen in
    (
      why,
      donor,
      s,
      subst (λ p. In (clone_from donor (credential_of c r)) p.deeds) (sym same)
          (cloned donor picked),
      m,
      live,
      role,
    )
