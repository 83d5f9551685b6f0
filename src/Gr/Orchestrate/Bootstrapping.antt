-- ===== src/Gr/Orchestrate/Bootstrapping.antt =====
-- mysql-wrapper/src/gr.rs, `orchestrate`: a turn that sees no live group, from the peers that are
-- waived to the statements of a bootstrap.
use mysql_ha.Prelude.{
  ℕ, zero, suc, ◌+◌, ◌-◌, ◌%◌, ◌^◌, max, Bool, true, false, not, ◌&&◌, Option, none, some, List, [],
  ◌∷◌, map, ltb, if◌then◌else◌, unwrap_or, any, filter, Str,
}
use mysql_ha.Gr.State.{PeerAnswer, not_ready, unreachable, Answers, rank_of}
use mysql_ha.Gr.Bootstrap.{
  Self, BootstrapVerdict, join_existing_group, safe_to_bootstrap, undecidable,
  peer_is_more_advanced, defer_to_peer, diverged_from, classify_round,
}
use mysql_ha.Gr.Gone.{GoneTracker, Sighting, observed, reached, sight_all, is_waived}
use mysql_ha.Gr.Orchestrate.Local.{Volume, persist_group_name, persist_waiver_generation}
use mysql_ha.Gr.Orchestrate.Node.{
  OrchestrateConfig, Node, Pass, Deed, set_group_name, bootstrap_group, set_group_pre_gtid_flag,
  Progress, go, stop, then_do,
}

-- The name of an unreachable peer is looked up; any other answer stops its clock.
abbrev pub sighting : Pass → Str × PeerAnswer → Sighting
sighting r (host, PeerAnswer.state s) = reached host
sighting r (host, not_ready) = reached host
sighting r (host, unreachable) = observed host (r.name_of host) r.now

abbrev pub sightings : Pass → List Sighting
sightings r = map (sighting r) r.answers

unfoldable pub track : GoneTracker → Pass → GoneTracker
track tracker r = sight_all tracker (sightings r)

abbrev pub is_given_up : Bool → GoneTracker → ℕ → ℕ → Str × PeerAnswer → Bool
is_given_up may_waive tracker now dwell (host, PeerAnswer.state s) = false
is_given_up may_waive tracker now dwell (host, not_ready) = false
is_given_up may_waive tracker now dwell (host, unreachable) =
    may_waive && is_waived tracker host now dwell

abbrev pub given_up : OrchestrateConfig → Node → Pass → Bool → Str × PeerAnswer → Bool
given_up c n r may_waive = is_given_up may_waive n.gone_tracker r.now c.gone_dwell

unfoldable pub any_waived : OrchestrateConfig → Node → Pass → Bool → Bool
any_waived c n r may_waive = any (given_up c n r may_waive) r.answers

unfoldable pub considered : OrchestrateConfig → Node → Pass → Bool → Answers
considered c n r may_waive = filter (λ a. not (given_up c n r may_waive a)) r.answers

abbrev pub generation_of : PeerAnswer → ℕ
generation_of (PeerAnswer.state s) = s.waiver_generation
generation_of not_ready = 0
generation_of unreachable = 0

-- `.max().unwrap_or(0)`.
unfoldable pub peer_generations : Answers → ℕ
peer_generations [] = 0
peer_generations (a ∷ rest) = max (generation_of a.1) (peer_generations rest)

unfoldable pub next_generation : Volume → Answers → ℕ
next_generation v answers = (max v.generation (peer_generations answers) + 1) % 2 ^ 64

abbrev pub reset_dwell : Node → Node
reset_dwell n = record n { safe_since = none }

-- Past a waived peer the group gets a fresh name and the next generation.
unfoldable pub mint_identity : Node → Pass → Bool → Answers → Progress
mint_identity n r waived answers =
    if not waived
    then go n
    else if r.sets_group_name
    then record {
      node = record n {
        volume =
            persist_waiver_generation r.persists_generation (next_generation n.volume answers)
              (persist_group_name r.persists_name r.fresh_name n.volume);
        group_name = r.fresh_name;
      };
      deeds = set_group_name r.fresh_name ∷ [];
      goes_on = true;
    }
    else stop (reset_dwell n) (set_group_name r.fresh_name ∷ [])

-- At most so many attempts, from the given one on, until one succeeds.
unfoldable pub write_flag : ℕ → (ℕ → Bool) → ℕ → List Deed
write_flag zero sets attempt = []
write_flag (suc left) sets attempt =
    let more = write_flag left sets (attempt + 1) in
    set_group_pre_gtid_flag ∷ (if sets attempt then [] else more)

abbrev pub flag_attempts : ℕ
flag_attempts = 5

unfoldable pub bootstrap_stage : Node → Pass → Progress
bootstrap_stage n r =
    if r.bootstraps
    then stop n (
        bootstrap_group
        ∷ (if r.promoted && n.volume.pre_gtid then write_flag flag_attempts r.sets_flag 0 else []))
    else stop (reset_dwell n) (bootstrap_group ∷ [])

-- A safe verdict that stands since the given instant.
unfoldable pub safe_turn : OrchestrateConfig → Pass → Bool → Answers → Node → ℕ → Progress
safe_turn c r waived answers n since =
    let waiting = record n { safe_since = some since } in
    if ltb (r.elapsed_at - since) c.dwell
    then stop waiting []
    else then_do (mint_identity waiting r waived answers) λ n1. bootstrap_stage n1 r

unfoldable pub on_verdict :
    OrchestrateConfig → Pass → Bool → Answers → Node → Option BootstrapVerdict → Progress
on_verdict c r waived answers n (some safe_to_bootstrap) =
    safe_turn c r waived answers n (unwrap_or n.safe_since r.safe_at)
on_verdict c r waived answers n (some (peer_is_more_advanced host)) = stop (reset_dwell n) []
on_verdict c r waived answers n (some (defer_to_peer host)) = stop (reset_dwell n) []
on_verdict c r waived answers n (some (diverged_from host)) = stop (reset_dwell n) []
on_verdict c r waived answers n (some undecidable) = stop (reset_dwell n) []
on_verdict c r waived answers n (some join_existing_group) = stop (reset_dwell n) []
on_verdict c r waived answers n none = stop (reset_dwell n) []

abbrev pub self_of : OrchestrateConfig → Node → Str → Self
self_of c n gtid = record {
  gtid = gtid;
  generation = n.volume.generation;
  seed_rank = rank_of c.seeds c.private_domain;
  pre_gtid = n.volume.pre_gtid;
}

unfoldable pub no_group_turn : OrchestrateConfig → Pass → Bool → Node → Option Str → Progress
no_group_turn c r may_waive n none = stop n []
no_group_turn c r may_waive n (some gtid) =
    on_verdict c r (any_waived c n r may_waive) (considered c n r may_waive) n
      (classify_round r.gtid_compare c.seeds (self_of c n gtid) (considered c n r may_waive))
