-- ===== src/Gr/Orchestrate/Acts.antt =====
-- mysql-wrapper/src/gr.rs, `orchestrate`: a turn that does anything is one of a node outside of
-- every group, which of its two halves it takes, and what its last stages leave undone.
use mysql_ha.Prelude.{
  ◌≡◌, refl, ap, ◌∙◌, inl, inr, Bool, true, false, ◌||◌, Option, none, some, Bool-cases, any,
}
use mysql_ha.Gr.State.{GrState}
use mysql_ha.Gr.Orchestrate.Local.{local_gr_state, resolve_peer_block_sizes}
use mysql_ha.Gr.Orchestrate.Node.{OrchestrateConfig, Node, Pass, Deed}
use mysql_ha.Gr.Orchestrate.Live.{
  is_recovering, start_stage, size_stages, block_size_stage, live_turn,
}
use mysql_ha.Gr.Orchestrate.Bootstrapping.{no_group_turn}
use mysql_ha.Gr.Orchestrate.Loop.{
  been_member, may_waive, group_seen, tracked, outside_turn, noting, on_local, turn,
}
use mysql_ha.Gr.Orchestrate.Stages.{IsLate}
use mysql_ha.Gr.Orchestrate.BlockSize.{block_size_stage-quiet}
use mysql_ha.Gr.Orchestrate.Reach.{
  then_do-quiet, IsOfGroup, no_group-quiet, local_state-idle, noting-idle,
}

pub noting-same :
    (r : Pass) (n : Node) (s : GrState)
    → local_gr_state n.volume r.before ≡ some s
    → s.group_active ≡ false
    → noting r n ≡ n
unfolding local_gr_state
noting-same r n s e idle =
    ap (λ v. record n { volume = v })
      (noting-idle r n (local_gr_state n.volume r.before) s e (
        local_state-idle n.volume r.before r.before.server_uuid r.before.members r.before.gtid s e
          idle))

on_local-outside :
    (c : OrchestrateConfig) (r : Pass) (n : Node) (o : Option GrState) (p : Deed → Bool)
    → local_gr_state n.volume r.before ≡ o
    → any p (on_local c r (noting r n) o).deeds ≡ true
    → on_local c r (noting r n) o ≡ outside_turn c r n
unfolding on_local
on_local-outside c r n none p e h = cc
on_local-outside c r n (some s) p e h = elim (Bool-cases s.group_active) [
  | inl active ↦ cc (let x : false ≡ true = rw active at h in x)
  | inr idle ↦ rw idle (ap (outside_turn c r) (noting-same r n s e idle))
]

-- Nothing is done by a node that is an active member, cannot read its own state, or is healing.
pub turn-outside :
    (c : OrchestrateConfig) (r : Pass) (n : Node) (p : Deed → Bool)
    → any p (turn c r n).deeds ≡ true
    → turn c r n ≡ outside_turn c r n
unfolding turn
turn-outside c r n p h = elim (Bool-cases (n.watching || r.healing)) [
  | inl idle ↦ cc (let x : false ≡ true = rw (idle, turn) at h in x)
  | inr awake ↦
      let acts : any p (on_local c r (noting r n) (local_gr_state n.volume r.before)).deeds ≡ true =
        let x = rw (awake, turn) at h in x in
      rw (awake, turn) (on_local-outside c r n (local_gr_state n.volume r.before) p refl acts)
]

-- A deed of a group's member is done in a turn that sees a live group.
pub turn-live :
    (c : OrchestrateConfig) (r : Pass) (n : Node) (p : Deed → Bool)
    → IsOfGroup p
    → any p (turn c r n).deeds ≡ true
    → (group_seen r.answers ≡ true) × (turn c r n ≡ live_turn c r (been_member n r) (tracked n r))
unfolding outside_turn
turn-live c r n p of h =
    let outside : turn c r n ≡ outside_turn c r n = turn-outside c r n p h in
    elim (Bool-cases (group_seen r.answers)) [
      | inl seen ↦ (seen, outside ∙ rw (seen, outside_turn) refl)
      | inr unseen ↦
          let quiet : any p
                (no_group_turn c r (may_waive n r) (tracked n r) r.executed_gtid_set).deeds
              ≡ false =
            no_group-quiet c p r (may_waive n r) (tracked n r) r.executed_gtid_set of in
          let alone : outside_turn c r n
              ≡ no_group_turn c r (may_waive n r) (tracked n r) r.executed_gtid_set =
            rw (unseen, outside_turn) refl in
          cc
    ]

-- A deed that neither joins a group nor gets ready for it.
abbrev pub IsNoJoin : (Deed → Bool) → Type 0
IsNoJoin p =
    IsLate p × (p Deed.start_group_replication ≡ false) × (p Deed.stop_group_replication ≡ false)

start_stage-quiet :
    (p : Deed → Bool) (n : Node) (r : Pass) → IsNoJoin p → any p (start_stage n r).deeds ≡ false
unfolding start_stage
start_stage-quiet p n r (late, no_start, no_stop) = elim (Bool-cases r.starts) [
  | inl e ↦ rw (e, no_start) refl
  | inr e ↦ elim (Bool-cases (is_recovering (local_gr_state n.volume r.after_start))) [
    | inl torn ↦ rw (e, torn, no_start, no_stop) refl
    | inr left ↦ rw (e, left, no_start) refl
  ]
]

pub size_stages-quiet :
    (p : Deed → Bool) (r : Pass) (n : Node) → IsNoJoin p → any p (size_stages r n).deeds ≡ false
unfolding size_stages
size_stages-quiet p r n (late, no_start, no_stop) =
    let sizes = resolve_peer_block_sizes r.ask_block_size r.answers in
    then_do-quiet p (block_size_stage n r.sets_block_size r.local_block_size sizes)
      (λ n1. start_stage n1 r)
      (block_size_stage-quiet p n r.sets_block_size r.local_block_size sizes late)
      (λ n1. start_stage-quiet p n1 r (late, no_start, no_stop))
