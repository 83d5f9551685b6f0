-- ===== src/Gr/Orchestrate/Clocks.antt =====
-- mysql-wrapper/src/gr.rs, `orchestrate`: the clocks of the peers over a run of turns, and a
-- bootstrap past those that are given up.
use mysql_ha.Prelude.{
  ℕ, ◌-◌, ◌≤◌, ◌≡◌, refl, sym, ap, ◌∙◌, subst, ◌⊎◌, inl, inr, true, false, ◌||◌, Option, none, some,
  List, [], ◌∷◌, ◌++◌, Bool-cases, any, All, All-mono, Str,
}
use mysql_ha.Gr.State.{GrState, PeerAnswer, unreachable}
use mysql_ha.Gr.Gone.{
  GoneTracker, Sighting, new_tracker, sight, sight_all, is_waived, Uninterrupted,
  is_waived_uninterrupted,
}
use mysql_ha.Gr.Orchestrate.Local.{Volume, local_gr_state}
use mysql_ha.Gr.Orchestrate.Node.{OrchestrateConfig, Node, Pass, Progress}
use mysql_ha.Gr.Orchestrate.Bootstrapping.{sightings, track, self_of}
use mysql_ha.Gr.Orchestrate.Loop.{
  initial_node, been_member, noting, on_local, turn, node_after, is_bootstrap,
}
use mysql_ha.Gr.Orchestrate.Tracking.{HasClocks, outside-clocks}
use mysql_ha.Gr.Orchestrate.Picture.{Heard, GivenUp, bootstrap_full_picture}

-- The turn asks the peers: the node is not handed to the watch and not being recloned, reads its own
-- state, and is not an active member.
abbrev pub Asks : Pass → Node → Type 0
Asks r n =
    (n.watching || r.healing ≡ false)
    × (s : GrState) × (local_gr_state n.volume r.before ≡ some s)
    × (s.group_active ≡ false)

-- The turn ends before it asks the peers.
abbrev pub EndsUnasked : Pass → Node → Type 0
EndsUnasked r n =
    (n.watching || r.healing ≡ true)
    ⊎ (local_gr_state n.volume r.before ≡ none)
    ⊎ ((s : GrState) × (local_gr_state n.volume r.before ≡ some s) × (s.group_active ≡ true))

-- What a run of turns from a node, its newest first, has seen of the peers, in order: all the
-- sightings of each turn that asks the peers, and nothing of those that end before.
pub data Seen (c : OrchestrateConfig) (n : Node) : List Pass → List Sighting → Type 0 where
  at_first : Seen c n [] []
  unasked :
      {h : List Pass} {xs : List Sighting} {r : Pass}
      → EndsUnasked r (node_after c n h)
      → Seen c n h xs
      → Seen c n (r ∷ h) xs
  asked_all :
      {h : List Pass} {xs : List Sighting} {r : Pass}
      → Asks r (node_after c n h)
      → Seen c n h xs
      → Seen c n (r ∷ h) (xs ++ sightings r)

pub sight_all-append :
    (tracker : GoneTracker) (xs ys : List Sighting)
    → sight_all tracker (xs ++ ys) ≡ sight_all (sight_all tracker xs) ys
unfolding sight_all
sight_all-append tracker [] ys = refl
sight_all-append tracker (x ∷ xs) ys = sight_all-append (sight tracker x) xs ys

-- A turn that ends before it asks does nothing and leaves the clocks, and one that asks moves them
-- by all that it sees.
abbrev Moved : Pass → Node → Progress → Type 0
Moved r n p =
    (EndsUnasked r n × HasClocks n.gone_tracker p.node × (any is_bootstrap p.deeds ≡ false))
    ⊎ (Asks r n × HasClocks (track n.gone_tracker r) p.node)

on_local-clocks :
    (c : OrchestrateConfig) (r : Pass) (n : Node) (o : Option GrState)
    → local_gr_state n.volume r.before ≡ o
    → (n.watching || r.healing) ≡ false
    → Moved r n (on_local c r (noting r n) o)
unfolding on_local
on_local-clocks c r n none e awake = inl (inr (inl e), refl, refl)
on_local-clocks c r n (some s) e awake = elim (Bool-cases s.group_active) [
  | inl active ↦ rw active (inl (inr (inr (s, e, active)), refl, refl))
  | inr idle ↦ rw idle (inr ((awake, s, e, idle), outside-clocks c r (noting r n)))
]

turn-clocks : (c : OrchestrateConfig) (r : Pass) (n : Node) → Moved r n (turn c r n)
unfolding turn
turn-clocks c r n = elim (Bool-cases (n.watching || r.healing)) [
  | inl idle ↦
      let kept : HasClocks n.gone_tracker (turn c r n).node = rw (idle, turn) refl in
      let quiet : any is_bootstrap (turn c r n).deeds ≡ false = rw (idle, turn) refl in
      inl (inl idle, kept, quiet)
  | inr awake ↦
      let own = local_gr_state n.volume r.before in
      let same : turn c r n ≡ on_local c r (noting r n) own = rw (awake, turn) refl in
      subst (Moved r n) (sym same) (on_local-clocks c r n own refl awake)
]

bootstrap-Asks :
    (c : OrchestrateConfig) (r : Pass) (n : Node)
    → any is_bootstrap (turn c r n).deeds ≡ true
    → Asks r n
bootstrap-Asks c r n h = elim (turn-clocks c r n) [ inl (_, _, quiet) ↦ cc | inr (asks, _) ↦ asks ]

track-seen :
    (r : Pass) (tracker : GoneTracker) (xs : List Sighting)
    → tracker ≡ sight_all new_tracker xs
    → track tracker r ≡ sight_all new_tracker (xs ++ sightings r)
unfolding track
track-seen r tracker xs e =
    ap (λ t. sight_all t (sightings r)) e ∙ sym (sight_all-append new_tracker xs (sightings r))

node_after-Seen :
    (c : OrchestrateConfig) (n : Node) (history : List Pass)
    → n.gone_tracker ≡ new_tracker
    → (xs : List Sighting) × Seen c n history xs
      × ((node_after c n history).gone_tracker ≡ sight_all new_tracker xs)
unfolding node_after sight_all
node_after-Seen c n [] fresh = ([], at_first, fresh)
node_after-Seen c n (r ∷ earlier) fresh =
    let (xs, seen, e) = node_after-Seen c n earlier fresh in
    elim (turn-clocks c r (node_after c n earlier)) [
      | inl (ends, kept, _) ↦ (xs, unasked ends seen, kept ∙ e)
      | inr (asks, moved) ↦ (
        xs ++ sightings r,
        asked_all asks seen,
        moved ∙ track-seen r (node_after c n earlier).gone_tracker xs e,
      )
    ]

-- The peer's name was seen gone once, at least the dwell ago, and nothing that was seen since then
-- shows that the peer is there.
abbrev pub GoneThroughout : OrchestrateConfig → Pass → Str → List Sighting → Type 0
GoneThroughout c r host xs =
    (since : ℕ) × Uninterrupted host since xs × (c.gone_dwell ≤ r.now - since)

abbrev pub HeardOrGone :
    OrchestrateConfig → Pass → Node → Str → List Sighting → Str × PeerAnswer → Type 0
HeardOrGone c r n gtid xs a =
    Heard r.gtid_compare c.seeds (self_of c n gtid) a
    ⊎ ((a.1 ≡ unreachable)
        × ((been_member n r ≡ true) ⊎ (n.volume.pre_gtid ≡ true))
        × GoneThroughout c r a.0 xs)

GivenUp-gone :
    (c : OrchestrateConfig) (r : Pass) (n : Node) (gtid : Str) (xs : List Sighting)
    (a : Str × PeerAnswer)
    → track n.gone_tracker r ≡ sight_all new_tracker xs
    → Heard r.gtid_compare c.seeds (self_of c n gtid) a ⊎ GivenUp c r n a
    → HeardOrGone c r n gtid xs a
GivenUp-gone c r n gtid xs a e (inl heard) = inl heard
GivenUp-gone c r n gtid xs a e (inr (away, may, waived)) =
    let waived' : is_waived (sight_all new_tracker xs) a.0 r.now c.gone_dwell ≡ true =
      subst (λ t. is_waived t a.0 r.now c.gone_dwell ≡ true) e waived in
    let (since, before, after, same, quiet, long) =
      is_waived_uninterrupted xs a.0 r.now c.gone_dwell waived' in
    inr (away, may, (since, (before, after, same, quiet), long))

-- When a node bootstraps a group in a turn, each of its peers has either told its GTIDs in that
-- turn, and the node outranks it, or does not answer and is given up. A peer is given up only by a
-- node that has been a member or holds data older than its GTIDs, and only if one of the turns so
-- far has seen its name gone, at least the dwell ago, and nothing that a turn saw since then shows
-- that it is there; each turn that asked the peers counts with all that it saw, also where it found
-- a live group. The node's own GTIDs have been read.
pub bootstrap-HeardOrGone :
    (c : OrchestrateConfig) (v : Volume) (name : Str) (history : List Pass) (r : Pass)
    → any is_bootstrap (turn c r (node_after c (initial_node v name) history)).deeds ≡ true
    → (gtid : Str) × (r.executed_gtid_set ≡ some gtid)
      × (xs : List Sighting) × Seen c (initial_node v name) (r ∷ history) xs
      × All (HeardOrGone c r (node_after c (initial_node v name) history) gtid xs) r.answers
bootstrap-HeardOrGone c v name history r h =
    let n = node_after c (initial_node v name) history in
    let (gtid, e, peers) = bootstrap_full_picture c r n h in
    let (xs, seen, clocks) = node_after-Seen c (initial_node v name) history refl in
    let moved : track n.gone_tracker r ≡ sight_all new_tracker (xs ++ sightings r) =
      track-seen r n.gone_tracker xs clocks in
    (
      gtid,
      e,
      xs ++ sightings r,
      asked_all (bootstrap-Asks c r n h) seen,
      All-mono _ _ r.answers (λ a. GivenUp-gone c r n gtid (xs ++ sightings r) a moved) peers,
    )
