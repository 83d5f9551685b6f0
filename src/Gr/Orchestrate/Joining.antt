-- ===== src/Gr/Orchestrate/Joining.antt =====
-- mysql-wrapper/src/gr.rs, `orchestrate`: when a node starts group replication.
use mysql_ha.Prelude.{
  ℕ, ◌≡◌, refl, sym, ap, ◌∙◌, subst, ◌⊎◌, inl, inr, Bool, true, false, Option, none, some, List, [],
  ◌∷◌, arith, Bool-cases, first, any, In, Str,
}
use mysql_ha.Gr.State.{Answers}
use mysql_ha.Gr.Answers.{find_map, advertised_block_size, live_primary_gtid, adopted_data_verdict}
use mysql_ha.Gr.Orchestrate.Local.{pick_donor, resolve_peer_block_sizes}
use mysql_ha.Gr.Orchestrate.Node.{
  OrchestrateConfig, Node, Pass, Deed, set_block_size, Progress, then_do,
}
use mysql_ha.Gr.Orchestrate.Live.{
  clone_deeds, credential_of, divergence_stage, adopted_stage, unknown_stage, clone_first_stage,
  block_size_stage, start_stage, gtid_now, been_member_now, picture_of, is_blank, size_stages,
  clone_stages, unknown_stages, data_stages, divergence_stages,
}
use mysql_ha.Gr.Orchestrate.Loop.{group_seen, is_start}
use mysql_ha.Gr.Orchestrate.Stages.{is_start-IsLate}
use mysql_ha.Gr.Orchestrate.Guards.{
  Contained, divergence_stage-passes, divergence_stage-quiet, adopted_stage-passes, adopted_node,
  unknown_node, unknown_stage-passes, clone_first_stage-passes, clone_first_stage-quiet,
}
use mysql_ha.Gr.Orchestrate.BlockSize.{block_size_stage-passes, block_size_stage-quiet}
use mysql_ha.Gr.Orchestrate.Donor.{pick_donor_prefers_primary}
use mysql_ha.Gr.Orchestrate.Reach.{then_do-through, then_do-In, then_do-earlier}

-- The group's block size has been told, and the node has it, or sets it and the server takes it.
abbrev pub Sized : Pass → List Deed → Type 0
Sized r deeds =
    (told : Answers) × (group : ℕ) × (resolve_peer_block_sizes r.ask_block_size r.answers
      ≡ some told)
    × (find_map advertised_block_size told ≡ some group)
    × ((r.local_block_size ≡ some group)
        ⊎ In (set_block_size group) deeds × (r.sets_block_size ≡ true))

-- Data older than the node's GTIDs is in the group, or the node has none or was a member.
abbrev pub AdoptedKept : Pass → Bool → Node → Type 0
AdoptedKept r been n =
    (n.volume.pre_gtid ≡ false)
    ⊎ (been_member_now n r been ≡ true)
    ⊎ ((picture_of r).carries_pre_gtid_data ≡ true)

-- The group's data older than its GTIDs is on the node, or there is none, as all its live members
-- say; a node with GTIDs of its own has the data that they stand on.
abbrev pub BaseKept : Pass → Node → Type 0
BaseKept r n =
    (n.volume.pre_gtid ≡ true)
    ⊎ (is_blank r ≡ false)
    ⊎ ((picture_of r).carries_pre_gtid_data ≡ false) × (first (picture_of r).unknown ≡ none)

-- A size that a stage sets is set in the whole turn.
SizeIn :
    (r : Pass) (group : ℕ) (q : Progress) (next : Node → Progress)
    → (r.local_block_size ≡ some group)
      ⊎ (q.deeds ≡ set_block_size group ∷ []) × (r.sets_block_size ≡ true)
    → (r.local_block_size ≡ some group)
      ⊎ In (set_block_size group) (then_do q next).deeds × (r.sets_block_size ≡ true)
SizeIn r group q next (inl same) = inl same
SizeIn r group q next (inr (e, taken)) = inr (
  then_do-earlier (set_block_size group) q next
      (subst (λ d. In (set_block_size group) d) (sym e) In.here),
  taken,
)

BaseKept-of :
    (i_hold blank carries : Bool) (unknown : Option Str)
    → (i_hold ≡ true) ⊎ (blank ≡ false) ⊎ (carries ≡ true) ⊎ (unknown ≡ none)
    → (carries ≡ false) ⊎ (i_hold ≡ true) ⊎ (blank ≡ false)
    → (i_hold ≡ true) ⊎ (blank ≡ false) ⊎ (carries ≡ false) × (unknown ≡ none)
BaseKept-of i_hold blank carries unknown a b = ground arith

start_stage-node : (n : Node) (r : Pass) → (start_stage n r).node.group_name ≡ n.group_name
unfolding start_stage
start_stage-node n r = elim (Bool-cases r.starts) [ inl e ↦ rw e refl | inr e ↦ rw e refl ]

size_stages-start :
    (r : Pass) (n : Node)
    → any is_start (size_stages r n).deeds ≡ true
    → Sized r (size_stages r n).deeds × ((size_stages r n).node.group_name ≡ n.group_name)
unfolding size_stages
size_stages-start r n h =
    let sizes = resolve_peer_block_sizes r.ask_block_size r.answers in
    let q = block_size_stage n r.sets_block_size r.local_block_size sizes in
    let quiet : any is_start q.deeds ≡ false =
      block_size_stage-quiet is_start n r.sets_block_size r.local_block_size sizes
        is_start-IsLate in
    let passes =
      block_size_stage-passes n r.sets_block_size r.local_block_size r.ask_block_size r.answers in
    let (goes, late, node) =
      then_do-through is_start q (λ n1. start_stage n1 r) n quiet (λ g. (passes g).1) h in
    let ((told, group, e, f, size), same) = passes goes in
    (
      (told, group, e, f, SizeIn r group q (λ n1. start_stage n1 r) size),
      ap (λ m. m.group_name) node ∙ start_stage-node n r,
    )

pub Sized-through :
    (r : Pass) (q : Progress) (next : Node → Progress) (n : Node)
    → q.goes_on ≡ true
    → q.node ≡ n
    → Sized r (next n).deeds
    → Sized r (then_do q next).deeds
Sized-through r q next n goes same (told, group, e, f, inl own) = (told, group, e, f, inl own)
Sized-through r q next n goes same (told, group, e, f, inr (m, taken)) =
    (told, group, e, f, inr (then_do-In (set_block_size group) q next n goes same m, taken))

abbrev CloneFree : Pass → Node → Type 0
CloneFree r n =
    ((picture_of r).carries_pre_gtid_data ≡ false)
    ⊎ (n.volume.pre_gtid ≡ true)
    ⊎ (is_blank r ≡ false)

-- By the donor that is picked.
clone_first-start :
    (c : OrchestrateConfig) (r : Pass) (n : Node) (o : Option Str) (donor : Str)
    → o ≡ some donor
    → let q =
        clone_first_stage n
          (credential_of c r)
          (picture_of r).carries_pre_gtid_data
          n.volume.pre_gtid
          (is_blank r)
          o in
      any is_start (then_do q (size_stages r)).deeds ≡ true
      → CloneFree r n
        × Sized r (then_do q (size_stages r)).deeds
        × ((then_do q (size_stages r)).node.group_name ≡ n.group_name)
clone_first-start c r n none donor e h = cc
clone_first-start c r n (some d) donor e h =
    let credential = credential_of c r in
    let carries = (picture_of r).carries_pre_gtid_data in
    let q = clone_first_stage n credential carries n.volume.pre_gtid (is_blank r) (some d) in
    let quiet : any is_start q.deeds ≡ false =
      clone_first_stage-quiet is_start n credential carries n.volume.pre_gtid (is_blank r) (some d)
        (λ d k. refl) in
    let passes = clone_first_stage-passes n credential carries n.volume.pre_gtid (is_blank r) d in
    let (goes, late, node) =
      then_do-through is_start q (size_stages r) n quiet (λ g. (passes g).1) h in
    let (free, same, none_done) = passes goes in
    let (sized, name) = size_stages-start r n late in
    (free, Sized-through r q (size_stages r) n goes same sized, ap (λ m. m.group_name) node ∙ name)

clone_stages-start :
    (c : OrchestrateConfig) (r : Pass) (n : Node)
    → group_seen r.answers ≡ true
    → any is_start (clone_stages c r n).deeds ≡ true
    → CloneFree r n
      × Sized r (clone_stages c r n).deeds
      × ((clone_stages c r n).node.group_name ≡ n.group_name)
unfolding clone_stages
clone_stages-start c r n seen h =
    let (donor, s, picked, m, live, role) = pick_donor_prefers_primary r.answers seen in
    clone_first-start c r n (pick_donor r.answers) donor picked h

unknown_stages-start :
    (c : OrchestrateConfig) (r : Pass) (n : Node)
    → group_seen r.answers ≡ true
    → any is_start (unknown_stages c r n).deeds ≡ true
    → BaseKept r n
      × Sized r (unknown_stages c r n).deeds
      × ((unknown_stages c r n).node.group_name ≡ n.group_name)
unfolding unknown_stages
unknown_stages-start c r n seen h =
    let q = unknown_stage n n.volume.pre_gtid (is_blank r) (picture_of r) in
    let (same, none_done) = unknown_node n n.volume.pre_gtid (is_blank r) (picture_of r) in
    let quiet : any is_start q.deeds ≡ false = ap (any is_start) none_done in
    let (goes, late, node) = then_do-through is_start q (clone_stages c r) n quiet (λ g. same) h in
    let known = unknown_stage-passes n n.volume.pre_gtid (is_blank r) (picture_of r) goes in
    let (free, sized, name) = clone_stages-start c r n seen late in
    (
      BaseKept-of n.volume.pre_gtid (is_blank r) (picture_of r).carries_pre_gtid_data
          (first (picture_of r).unknown) known free,
      Sized-through r q (clone_stages c r) n goes same sized,
      ap (λ m. m.group_name) node ∙ name,
    )

-- What the stages from the guard of adopted data on establish before the join.
abbrev pub DataJoin : Pass → Bool → Node → Progress → Type 0
DataJoin r been n p =
    AdoptedKept r been n × BaseKept r n × Sized r p.deeds × (p.node.group_name ≡ n.group_name)

data_stages-start :
    (c : OrchestrateConfig) (r : Pass) (been : Bool) (n : Node)
    → group_seen r.answers ≡ true
    → any is_start (data_stages c r been n).deeds ≡ true
    → DataJoin r been n (data_stages c r been n)
unfolding data_stages
data_stages-start c r been n seen h =
    let i_hold = n.volume.pre_gtid in
    let member = been_member_now n r been in
    let verdict = adopted_data_verdict i_hold member (picture_of r) in
    let q = adopted_stage n verdict in
    let (same, none_done) = adopted_node n verdict in
    let quiet : any is_start q.deeds ≡ false = ap (any is_start) none_done in
    let (goes, late, node) =
      then_do-through is_start q (unknown_stages c r) n quiet (λ g. same) h in
    let kept = adopted_stage-passes n i_hold member (picture_of r) goes in
    let (base, sized, name) = unknown_stages-start c r n seen late in
    (
      kept,
      base,
      Sized-through r q (unknown_stages c r) n goes same sized,
      ap (λ m. m.group_name) node ∙ name,
    )

abbrev pub NotDiverged : Pass → Type 0
NotDiverged r = Contained r.gtid_compare (gtid_now r) (live_primary_gtid r.answers)

pub divergence_stages-start :
    (c : OrchestrateConfig) (r : Pass) (been : Bool) (n : Node)
    → group_seen r.answers ≡ true
    → any is_start (divergence_stages c r been n).deeds ≡ true
    → NotDiverged r × DataJoin r been n (divergence_stages c r been n)
unfolding divergence_stages
divergence_stages-start c r been n seen h =
    let clone = clone_deeds (pick_donor r.answers) (credential_of c r) in
    let primary = live_primary_gtid r.answers in
    let q = divergence_stage n r.gtid_compare clone (gtid_now r) primary in
    let passes = divergence_stage-passes n r.gtid_compare clone (gtid_now r) primary in
    let quiet : any is_start q.deeds ≡ false =
      divergence_stage-quiet is_start n r.gtid_compare (pick_donor r.answers) (credential_of c r)
        (gtid_now r) primary (λ d k. refl) in
    let (goes, late, node) =
      then_do-through is_start q (data_stages c r been) n quiet (λ g. (passes g).1) h in
    let (contained, same, none_done) = passes goes in
    let (kept, base, sized, name) = data_stages-start c r been n seen late in
    (
      contained,
      (
        kept,
        base,
        Sized-through r q (data_stages c r been) n goes same sized,
        ap (λ m. m.group_name) node ∙ name,
      ),
    )
