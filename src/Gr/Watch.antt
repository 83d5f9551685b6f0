-- ===== src/Gr/Watch.antt =====
-- mysql-wrapper/src/gr.rs: `majority_watch`, the loop that an active member runs for the rest of
-- its life. One turn of the loop is a function of what it observes; what it does to the server and
-- the volume is a list of actions. The texts that suppress repeated log lines are not kept.
pub mod Turns
pub mod Reform
pub mod Fence
use mysql_ha.Prelude.{
  ℕ, ◌+◌, ◌-◌, ◌*◌, min, max, Bool, true, false, not, ◌&&◌, ◌||◌, Option, none, some, List, [], ◌∷◌,
  ◌++◌, map, ltb, leb, if◌then◌else◌, is_none, unwrap_or, length, any, all, filter, In.here,
  In.there, Str, codes, str_eq, eq_ignore_ascii_case,
}
use mysql_ha.Gr.State.{PeerAnswer, state, not_ready, unreachable, Answers, MemberRow, usize_max}
use mysql_ha.Gr.Bootstrap.{GtidCompare}
use mysql_ha.Gr.Gone.{NameVerdict, GoneTracker, new_tracker, observe, observe_reachable, is_waived}
use mysql_ha.Gr.Majority.{
  healthy, force, hold, is_reachable, reachable_count, membership_fence_wanted,
  majority_loss_recovery_verdict,
}

abbrev pub force_dwell_rounds : ℕ
force_dwell_rounds = 15

abbrev pub force_max_attempts : ℕ
force_max_attempts = 3

-- What the loop reads once, before its first turn. `none` is a marker that cannot be read.
pub record WatchConfig : Type 0 where
  pub seeds : List Str
  pub gone_dwell : ℕ
  pub marker : Option ℕ

abbrev pub configured : WatchConfig → ℕ
configured c = max (length c.seeds) 1

pub record Watch : Type 0 where
  pub high_water : ℕ
  pub seed_gone : GoneTracker
  pub consecutive_force : ℕ
  pub attempts : ℕ
  pub membership_fenced : Bool

abbrev pub initial : WatchConfig → Bool → Watch
initial c fenced = record {
  high_water = unwrap_or c.marker 0;
  seed_gone = new_tracker;
  consecutive_force = 0;
  attempts = 0;
  membership_fenced = fenced;
}

-- What one turn observes: the answers of mysqld, of the resolver and of the other wrappers, and
-- which statements succeed.
pub record Round : Type 0 where
  pub members : Option (List MemberRow)
  pub self_uuid : Option Str
  pub now : ℕ
  pub name_of : Str → NameVerdict
  pub group_name : Option Str
  pub answer_from : Str → PeerAnswer
  pub executed_gtid_set : Option Str
  pub gtid_compare : GtidCompare
  pub clear_succeeds : Bool
  pub stop_succeeds : Bool
  pub bootstrap_succeeds : Bool

pub data Action : Type 0 where
  note_membership set_super_read_only clear_super_read_only : Action
  stop_group_replication bootstrap_group shutdown_server : Action
  persist_high_water : ℕ → Action

abbrev pub is_online : MemberRow → Bool
is_online m = str_eq m.state (codes "ONLINE")

abbrev pub is_self : Str → MemberRow → Bool
is_self self_uuid m = eq_ignore_ascii_case m.member_id self_uuid

abbrev pub online_count : List MemberRow → ℕ
online_count members = length (filter is_online members)

unfoldable pub is_armed : WatchConfig → ℕ → Bool
is_armed c high_water = is_none c.marker || ltb (configured c) (min (high_water * 2) usize_max)

-- The loop over the seeds: the tracker after it, and the declared members that still count.
unfoldable pub probe_seeds :
    List Str → List Str → (Str → NameVerdict) → ℕ → ℕ → GoneTracker → ℕ → GoneTracker × ℕ
probe_seeds online_hosts [] name_of now dwell tracker effective = (tracker, effective)
probe_seeds online_hosts (seed ∷ seeds) name_of now dwell tracker effective =
    let online = any (λ h. eq_ignore_ascii_case h seed) online_hosts in
    let seen = observe tracker seed (name_of seed) now in
    probe_seeds online_hosts seeds name_of now dwell
      (if online then observe_reachable tracker seed else seen)
      (if not online && is_waived seen seed now dwell then effective - 1 else effective)

unfoldable pub effective_members : WatchConfig → Watch → Round → List MemberRow → GoneTracker × ℕ
effective_members c w r members =
    if is_armed c w.high_water && leb (online_count members * 2) (configured c)
    then probe_seeds (map (λ m. m.host) (filter is_online members)) c.seeds r.name_of r.now
        c.gone_dwell w.seed_gone (configured c)
    else (w.seed_gone, configured c)

-- A turn so far: the state, the actions, and whether the turn goes on.
pub record Turn : Type 0 where
  pub watch : Watch
  pub actions : List Action
  pub goes_on : Bool

unfoldable pub raise_high_water : Watch → ℕ → Turn
raise_high_water w online =
    if ltb w.high_water online
    then record {
      watch = record w { high_water = online };
      actions = note_membership ∷ persist_high_water online ∷ [];
      goes_on = true;
    }
    else record { watch = w; actions = note_membership ∷ []; goes_on = true }

-- The write fence is imposed, lifted, or left as it is.
unfoldable pub apply_fence : Watch → Round → List MemberRow → Str → Bool → Turn
apply_fence w r members self_uuid want_fence =
    if want_fence
    then record {
      watch = record w { membership_fenced = true };
      actions = set_super_read_only ∷ [];
      goes_on = true;
    }
    else if not w.membership_fenced
    then record { watch = w; actions = []; goes_on = true }
    else if any (λ m. is_self self_uuid m && is_online m && str_eq m.role (codes "PRIMARY")) members
    then record {
      watch = record w { membership_fenced = not r.clear_succeeds };
      actions = clear_super_read_only ∷ [];
      goes_on = r.clear_succeeds;
    }
    else record { watch = record w { membership_fenced = false }; actions = []; goes_on = true }

-- The answers of the unreachable members.
abbrev pub answers_of : Round → List MemberRow → Answers
answers_of r members =
    map (λ m. (m.host, r.answer_from m.host)) (filter (λ m. not (is_reachable m)) members)

-- The peer holds no transaction that this node lacks.
unfoldable pub holds_nothing_more : GtidCompare → Str → PeerAnswer → Bool
holds_nothing_more gtid_compare mine (PeerAnswer.state s) = elim s.gtid_executed [
  | none ↦ false
  | some peer_set ↦ elim (gtid_compare mine peer_set) [ none ↦ false | some order ↦ order.0 ]
]
holds_nothing_more gtid_compare mine not_ready = false
holds_nothing_more gtid_compare mine unreachable = false

abbrev pub reset_force : Watch → Watch
reset_force w = record w { consecutive_force = 0 }

-- The statements that re-form the group.
unfoldable pub reform_actions : Watch → Round → List Action
reform_actions w r =
    if r.stop_succeeds
    then stop_group_replication
      ∷ bootstrap_group
      ∷ (if r.bootstrap_succeeds
          then (if w.membership_fenced then set_super_read_only ∷ [] else [])
          else shutdown_server ∷ [])
    else stop_group_replication ∷ []

-- The arm of a `Force` verdict.
unfoldable pub force_round : Watch → Round → Answers → Turn
force_round w r answers =
    let rounds = w.consecutive_force + 1 in
    if ltb rounds force_dwell_rounds
    then record { watch = record w { consecutive_force = rounds }; actions = []; goes_on = false }
    else elim r.executed_gtid_set [
      | none ↦ record { watch = reset_force w; actions = []; goes_on = false }
      | some mine ↦
          if not (all (λ a. holds_nothing_more r.gtid_compare mine a.1) answers)
          then record { watch = reset_force w; actions = []; goes_on = false }
          else if leb force_max_attempts w.attempts
          then record {
            watch = record w { consecutive_force = rounds };
            actions = [];
            goes_on = false;
          }
          else record {
            watch = record w { consecutive_force = 0; attempts = w.attempts + 1 };
            actions = reform_actions w r;
            goes_on = false;
          }
    ]

unfoldable pub recover : Watch → Round → List MemberRow → Turn
recover w r members =
    if ltb (length members) (reachable_count members * 2)
    then record { watch = reset_force w; actions = []; goes_on = false }
    else elim (majority_loss_recovery_verdict r.group_name members (answers_of r members)) [
      | healthy ↦ record { watch = reset_force w; actions = []; goes_on = false }
      | hold reason ↦ record { watch = reset_force w; actions = []; goes_on = false }
      | force ↦ force_round w r (answers_of r members)
    ]

-- The part of a turn after the fence.
abbrev pub then_recover : Turn → Round → List MemberRow → Turn
then_recover t r members =
    if t.goes_on
    then record {
      watch = (recover t.watch r members).watch;
      actions = t.actions ++ (recover t.watch r members).actions;
      goes_on = false;
    }
    else t

-- A turn of a member that sees itself ONLINE.
unfoldable pub online_turn : WatchConfig → Watch → Round → List MemberRow → Str → Turn
online_turn c w r members self_uuid =
    let raised = raise_high_water w (online_count members) in
    let (tracker, effective) = effective_members c raised.watch r members in
    let want_fence =
      membership_fence_wanted (online_count members) effective
        (is_armed c raised.watch.high_water) in
    let fence =
      apply_fence (record raised.watch { seed_gone = tracker }) r members self_uuid want_fence in
    then_recover (record fence { actions = raised.actions ++ fence.actions }) r members

abbrev pub quiet : Watch → Turn
quiet w = record { watch = reset_force w; actions = []; goes_on = false }

-- A turn, by the answers to its two queries.
unfoldable pub turn_on : WatchConfig → Watch → Round → Option (List MemberRow) → Option Str → Turn
turn_on c w r none self_uuid = quiet w
turn_on c w r (some members) none = quiet w
turn_on c w r (some members) (some self_uuid) =
    if any (λ m. is_self self_uuid m && is_online m) members
    then online_turn c w r members self_uuid
    else quiet w

unfoldable pub turn : WatchConfig → Watch → Round → Turn
turn c w r = turn_on c w r r.members r.self_uuid

-- The state after the turns of a history, its newest round first.
unfoldable pub watch_after : WatchConfig → Watch → List Round → Watch
watch_after c w [] = w
watch_after c w (r ∷ earlier) = (turn c (watch_after c w earlier) r).watch

abbrev pub is_bootstrap : Action → Bool
is_bootstrap bootstrap_group = true
is_bootstrap _ = false

abbrev pub bootstraps : List Action → Bool
bootstraps = any is_bootstrap
