-- ===== src/Gr/Orchestrate/Deferral.antt =====
-- mysql-wrapper/src/gr.rs, `orchestrate`: nodes of one dataset whose group carries the flag of data
-- older than its GTIDs, none of which holds the marker.
use mysql_ha.Prelude.{
  ◌≡◌, refl, sym, ap, ◌∙◌, subst, Bool, true, false, not, Option, none, some, List, [], ◌∷◌,
  false_of_ne_true, any, In, filter-In, Str,
}
use mysql_ha.Gr.State.{GrState, PeerAnswer, MemberRow, rank_of}
use mysql_ha.Gr.Bootstrap.{
  defer_to_peer, standings, classify_round, decide, Self, GtidCompare, equal, relation_of,
  relation_of_set,
}
use mysql_ha.Gr.Bootstrap.Decide.{Outranked}
use mysql_ha.Gr.Bootstrap.Agreement.{Beats, classify_round_safe}
use mysql_ha.Gr.Orchestrate.Local.{
  Volume, Local, pre_gtid_reading, reported, local_gr_state_of, local_gr_state,
}
use mysql_ha.Gr.Orchestrate.Node.{OrchestrateConfig, Node, Pass}
use mysql_ha.Gr.Orchestrate.Bootstrapping.{given_up, considered, self_of}
use mysql_ha.Gr.Orchestrate.Loop.{may_waive, tracked, turn, is_bootstrap}
use mysql_ha.Gr.Orchestrate.Fork.{turn-bootstrap}

-- The peer reports the same dataset, and data older than its GTIDs.
abbrev SameDataset : GtidCompare → Str → GrState → Type 0
SameDataset compare_sets gtid s =
    (peer : Str) × (s.gtid_executed ≡ some peer)
    × (compare_sets gtid peer ≡ some (true, true))
    × (s.pre_gtid_data ≡ true)

not_Beats :
    (compare_sets : GtidCompare) (seeds : List Str) (me : Self) (host : Str) (s : GrState)
    → me.pre_gtid ≡ false
    → SameDataset compare_sets me.gtid s
    → Beats compare_sets seeds me host (PeerAnswer.state s)
    → ⊥
unfolding relation_of relation_of_set
not_Beats compare_sets seeds me host s bare (peer, told, same, pre) (relation, e, o) =
    let tie : some (equal s.pre_gtid_data) ≡ some relation =
      rw (told, relation_of_set, same) at e in
    let kind : relation ≡ equal s.pre_gtid_data = cc in
    let lost : Outranked me.pre_gtid me.seed_rank (rank_of seeds host) (equal s.pre_gtid_data) =
      subst (Outranked me.pre_gtid me.seed_rank (rank_of seeds host)) kind o in
    let x = rw (pre, bare) at lost in cc

-- A node without the marker does not bootstrap beside a peer of the same dataset that reports such
-- data.
defers :
    (c : OrchestrateConfig) (r : Pass) (n : Node) (host : Str) (s : GrState) (gtid : Str)
    → n.volume.pre_gtid ≡ false
    → r.executed_gtid_set ≡ some gtid
    → In (host, PeerAnswer.state s) r.answers
    → SameDataset r.gtid_compare gtid s
    → any is_bootstrap (turn c r n).deeds ≡ false
unfolding considered
defers c r n host s gtid bare e m same = false_of_ne_true _ λ h.
    let (unseen, (gtid', e', safe, dwelt, minted)) = turn-bootstrap c r n h in
    let own : gtid' ≡ gtid = cc in
    let asked : In (host, PeerAnswer.state s) (considered c (tracked n r) r (may_waive n r)) =
      filter-In (λ x. not (given_up c (tracked n r) r (may_waive n r) x)) r.answers m refl in
    let (idle, beats) =
      classify_round_safe r.gtid_compare c.seeds (self_of c n gtid')
        (considered c (tracked n r) r (may_waive n r)) safe in
    not_Beats r.gtid_compare c.seeds (self_of c n gtid') host s bare
      (subst (λ g. SameDataset r.gtid_compare g s) (sym own) same)
      (beats host (PeerAnswer.state s) asked)

flag_reading :
    (marked : Bool) (flag : Option Bool)
    → flag ≡ some true
    → (pre_gtid_reading marked flag).0 ≡ true
unfolding pre_gtid_reading
flag_reading true flag e = refl
flag_reading false (some f) e = cc
flag_reading false none e = cc

-- What a node reports of itself while its group's flag is set.
reported_flag :
    (v : Volume) (l : Local) (u : Option Str) (ms : Option (List MemberRow)) (g : Option Str)
    (s : GrState)
    → local_gr_state_of v l u ms g ≡ some s
    → l.group_pre_gtid_flag ≡ some true
    → (s.gtid_executed ≡ g) × (s.pre_gtid_data ≡ true)
unfolding local_gr_state_of reported
reported_flag v l (some u) (some ms) (some g) s e flag =
    let same : reported v l u ms g ≡ s = cc in
    (
      sym (ap (λ x. x.gtid_executed) same),
      sym (ap (λ x. x.pre_gtid_data) same) ∙ flag_reading v.pre_gtid l.group_pre_gtid_flag flag,
    )
reported_flag v l (some u) (some ms) none s e flag = cc
reported_flag v l (some u) none g s e flag = cc
reported_flag v l none ms g s e flag = cc

-- One of the two nodes: it holds no marker, its group's flag is set, and in its turn it hears what
-- the other has read of itself.
abbrev pub IsFlagged : Pass → Node → Str → GrState → Type 0
IsFlagged r n gtid s =
    (n.volume.pre_gtid ≡ false)
    × (r.before.group_pre_gtid_flag ≡ some true)
    × (r.before.gtid ≡ some gtid)
    × (r.executed_gtid_set ≡ some gtid)
    × (local_gr_state n.volume r.before ≡ some s)

SameDataset-of :
    (compare_sets : GtidCompare) (gtid : Str) (r : Pass) (n : Node) (peer : Str) (s : GrState)
    → IsFlagged r n peer s
    → compare_sets gtid peer ≡ some (true, true)
    → SameDataset compare_sets gtid s
unfolding local_gr_state
SameDataset-of compare_sets gtid r n peer s (bare, flag, read, own, told) same =
    let (set, pre) =
      reported_flag n.volume r.before r.before.server_uuid r.before.members r.before.gtid s told
        flag in
    (peer, set ∙ read, same, pre)

-- The verdict on such a peer alone.
verdict-defers :
    (compare_sets : GtidCompare) (seeds : List Str) (me : Self) (host : Str) (s : GrState)
    → me.pre_gtid ≡ false
    → SameDataset compare_sets me.gtid s
    → s.group_active ≡ false
    → classify_round compare_sets seeds me ((host, PeerAnswer.state s) ∷ [])
      ≡ some (defer_to_peer host)
unfolding classify_round standings relation_of relation_of_set decide
verdict-defers compare_sets seeds me host s bare (peer, told, same, pre) idle =
    rw (idle, told, same, pre, bare) refl

-- Two nodes of the same dataset whose group carries the flag, neither of which holds the marker or
-- is an active member, and each of which hears in its turn what the other has read of itself:
-- whatever their places in the seed order and whoever else answers, neither bootstraps in that turn,
-- and the verdict of each on the other's answer alone is to defer to it.
pub flagged_pair_defers :
    (c_a c_b : OrchestrateConfig) (r_a r_b : Pass) (n_a n_b : Node) (host_a host_b : Str)
    (gtid_a gtid_b : Str) (s_a s_b : GrState)
    → IsFlagged r_a n_a gtid_a s_a
    → IsFlagged r_b n_b gtid_b s_b
    → In (host_b, PeerAnswer.state s_b) r_a.answers
    → In (host_a, PeerAnswer.state s_a) r_b.answers
    → r_a.gtid_compare gtid_a gtid_b ≡ some (true, true)
    → r_b.gtid_compare gtid_b gtid_a ≡ some (true, true)
    → s_a.group_active ≡ false
    → s_b.group_active ≡ false
    → (any is_bootstrap (turn c_a r_a n_a).deeds ≡ false)
      × (any is_bootstrap (turn c_b r_b n_b).deeds ≡ false)
      × (classify_round r_a.gtid_compare c_a.seeds
            (self_of c_a n_a gtid_a)
            ((host_b, PeerAnswer.state s_b) ∷ [])
          ≡ some (defer_to_peer host_b))
      × (classify_round r_b.gtid_compare c_b.seeds
            (self_of c_b n_b gtid_b)
            ((host_a, PeerAnswer.state s_a) ∷ [])
          ≡ some (defer_to_peer host_a))
flagged_pair_defers c_a c_b r_a r_b n_a n_b host_a host_b gtid_a gtid_b s_a s_b a b in_a in_b ab ba
      idle_a idle_b =
    let same_a = SameDataset-of r_a.gtid_compare gtid_a r_b n_b gtid_b s_b b ab in
    let same_b = SameDataset-of r_b.gtid_compare gtid_b r_a n_a gtid_a s_a a ba in
    (
      defers c_a r_a n_a host_b s_b gtid_a a.0 a.3 in_a same_a,
      defers c_b r_b n_b host_a s_a gtid_b b.0 b.3 in_b same_b,
      verdict-defers r_a.gtid_compare c_a.seeds (self_of c_a n_a gtid_a) host_b s_b a.0 same_a
          idle_b,
      verdict-defers r_b.gtid_compare c_b.seeds (self_of c_b n_b gtid_b) host_a s_a b.0 same_b
          idle_a,
    )
