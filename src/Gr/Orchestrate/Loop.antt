-- ===== src/Gr/Orchestrate/Loop.antt =====
-- mysql-wrapper/src/gr.rs, `orchestrate`: one turn of the loop, and the node after a run of turns.
use mysql_ha.Prelude.{
  Bool, true, false, ◌||◌, Option, none, some, List, [], ◌∷◌, if◌then◌else◌, any, Str,
}
use mysql_ha.Gr.State.{GrState, Answers, is_live}
use mysql_ha.Gr.Gone.{new_tracker}
use mysql_ha.Gr.Orchestrate.Local.{Volume, local_gr_state, note_membership, has_been_group_member}
use mysql_ha.Gr.Orchestrate.Node.{
  OrchestrateConfig, Node, Pass, Deed, bootstrap_group, start_group_replication, clone_from,
  Progress, stop,
}
use mysql_ha.Gr.Orchestrate.Live.{live_turn}
use mysql_ha.Gr.Orchestrate.Bootstrapping.{track, no_group_turn}

abbrev pub initial_node : Volume → Str → Node
initial_node v name = record {
  volume = v;
  group_name = name;
  safe_since = none;
  gone_tracker = new_tracker;
  watching = false;
}

-- Whether the node has been a member, as the turn reads it before it decides.
unfoldable pub been_member : Node → Pass → Bool
been_member n r = has_been_group_member n.volume r.membership_gtid n.group_name

-- A node may give up a peer only if it has been a member or holds data of its own.
unfoldable pub may_waive : Node → Pass → Bool
may_waive n r = been_member n r || n.volume.pre_gtid

abbrev pub group_seen : Answers → Bool
group_seen answers = any (λ a. is_live a.1) answers

abbrev pub tracked : Node → Pass → Node
tracked n r = record n { gone_tracker = track n.gone_tracker r }

-- A turn of a node that is not an active member.
unfoldable pub outside_turn : OrchestrateConfig → Pass → Node → Progress
outside_turn c r n =
    if group_seen r.answers
    then live_turn c r (been_member n r) (tracked n r)
    else no_group_turn c r (may_waive n r) (tracked n r) r.executed_gtid_set

abbrev pub noting : Pass → Node → Node
noting r n = record n {
  volume = note_membership r.notes_membership (local_gr_state n.volume r.before) n.volume;
}

-- By what the node reads of itself. An active member is handed to the majority watch.
unfoldable pub on_local : OrchestrateConfig → Pass → Node → Option GrState → Progress
on_local c r n none = stop n []
on_local c r n (some s) =
    if s.group_active then stop (record n { watching = true }) [] else outside_turn c r n

unfoldable pub turn : OrchestrateConfig → Pass → Node → Progress
turn c r n =
    if n.watching || r.healing
    then stop n []
    else on_local c r (noting r n) (local_gr_state n.volume r.before)

-- The node after the turns of a history, its newest turn first.
unfoldable pub node_after : OrchestrateConfig → Node → List Pass → Node
node_after c n [] = n
node_after c n (r ∷ earlier) = (turn c r (node_after c n earlier)).node

abbrev pub is_bootstrap : Deed → Bool
is_bootstrap bootstrap_group = true
is_bootstrap _ = false

abbrev pub is_start : Deed → Bool
is_start start_group_replication = true
is_start _ = false

abbrev pub is_clone : Deed → Bool
is_clone (clone_from donor credential) = true
is_clone _ = false
