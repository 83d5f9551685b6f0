-- ===== src/Gr/Watch/Turns.antt =====
-- mysql-wrapper/src/gr.rs: what one turn of `majority_watch` does to the counters of the watch.
use mysql_ha.Prelude.{
  ℕ, suc, ◌+◌, ◌*◌, ◌≤◌, ◌<◌, ◌≡◌, refl, ◌∙◌, ◌⊎◌, inl, inr, Bool, true, false, ◌&&◌, ◌||◌, Option,
  none, some, List, [], ◌∷◌, ◌++◌, arith, ltb, leb, Bool-cases, Option-cases, length, any, all, Str,
  codes, str_eq,
}
use mysql_ha.Gr.State.{Answers, MemberRow}
use mysql_ha.Gr.Majority.{
  HoldReason, MajorityVerdict, healthy, force, hold, reachable_count,
  majority_loss_recovery_verdict, membership_fence_wanted,
}
use mysql_ha.Gr.Watch.{
  WatchConfig, Watch, Round, Action, Turn, force_dwell_rounds, force_max_attempts, is_online,
  is_self, online_count, is_armed, effective_members, raise_high_water, apply_fence, answers_of,
  holds_nothing_more, reset_force, reform_actions, force_round, recover, then_recover, online_turn,
  turn_on, turn, bootstraps,
}

any-append : (xs ys : List Action) → bootstraps (xs ++ ys) ≡ (bootstraps xs || bootstraps ys)
any-append [] ys = refl
any-append (x ∷ xs) ys = ground (arith, any-append xs ys)

-- The round ends in the verdict that the group is to be re-formed.
abbrev pub ForceRound : Round → Type 0
ForceRound r =
    (members : List MemberRow) × (r.members ≡ some members)
    × (majority_loss_recovery_verdict r.group_name members (answers_of r members) ≡ force)

-- No unreachable member that answered holds a transaction that this node lacks.
abbrev pub LosesNothing : Round → List MemberRow → Type 0
LosesNothing r members =
    (mine : Str) × (r.executed_gtid_set ≡ some mine)
    × (all (λ a. holds_nothing_more r.gtid_compare mine a.1) (answers_of r members) ≡ true)

abbrev pub resting : Watch → Turn
resting w = record { watch = w; actions = []; goes_on = false }

abbrev pub reforming : Watch → Round → Turn
reforming w r = record {
  watch = record w { consecutive_force = 0; attempts = w.attempts + 1 };
  actions = reform_actions w r;
  goes_on = false;
}

-- The conditions under which a `Force` verdict is acted on.
abbrev pub ReformsOn : Watch → Round → Answers → Type 0
ReformsOn w r answers =
    (force_dwell_rounds ≤ w.consecutive_force + 1)
    × (w.attempts < force_max_attempts)
    × (mine : Str) × (r.executed_gtid_set ≡ some mine)
    × (all (λ a. holds_nothing_more r.gtid_compare mine a.1) answers ≡ true)

force_round-cases :
    (w : Watch) (r : Round) (answers : Answers)
    → (force_round w r answers ≡ resting (record w { consecutive_force = w.consecutive_force + 1 }))
      ⊎ (force_round w r answers ≡ resting (reset_force w))
      ⊎ (force_round w r answers ≡ reforming w r) × ReformsOn w r answers
unfolding force_round reform_actions
force_round-cases w r answers =
    elim (Bool-cases (ltb (w.consecutive_force + 1) force_dwell_rounds)) [
      | inl dwelling ↦ inl (rw dwelling refl)
      | inr dwelt ↦ elim (Option-cases r.executed_gtid_set) [
        | inl e ↦ inr (inl (rw (dwelt, e) refl))
        | inr (mine, e) ↦
            elim (Bool-cases (all (λ a. holds_nothing_more r.gtid_compare mine a.1) answers)) [
              | inr more ↦ inr (inl (rw (dwelt, e, more) refl))
              | inl nothing ↦ elim (Bool-cases (leb force_max_attempts w.attempts)) [
                | inl spent ↦ inl (rw (dwelt, e, nothing, spent) refl)
                | inr left ↦ inr (
                    inr (
                      rw (dwelt, e, nothing, left) refl,
                      (ground arith, ground arith, mine, e, nothing),
                    ))
              ]
            ]
      ]
    ]

pub verdict-cases :
    (v : MajorityVerdict)
    → (v ≡ healthy) ⊎ ((reason : HoldReason) × (v ≡ hold reason)) ⊎ (v ≡ force)
verdict-cases healthy = inl refl
verdict-cases (hold reason) = inr (inl (reason, refl))
verdict-cases force = inr (inr refl)

abbrev pub Forces : Round → List MemberRow → Type 0
Forces r members =
    majority_loss_recovery_verdict r.group_name members (answers_of r members) ≡ force

pub recover-cases :
    (w : Watch) (r : Round) (members : List MemberRow)
    → (recover w r members ≡ resting (reset_force w))
      ⊎ Forces r members
        × (recover w r members ≡ resting (record w { consecutive_force = w.consecutive_force + 1 }))
      ⊎ Forces r members
        × (recover w r members ≡ reforming w r)
        × ReformsOn w r (answers_of r members)
unfolding recover
recover-cases w r members = elim (Bool-cases (ltb (length members) (reachable_count members * 2))) [
  | inl majority ↦ inl (rw majority refl)
  | inr lost ↦
      elim (verdict-cases
        (majority_loss_recovery_verdict r.group_name members (answers_of r members))) [
          | inl e ↦ inl (rw (lost, e) refl)
          | inr (inl (reason, e)) ↦ inl (rw (lost, e) refl)
          | inr (inr e) ↦ elim (force_round-cases w r (answers_of r members)) [
            | inl dwells ↦ inr (inl (e, rw (lost, e) dwells))
            | inr (inl rests) ↦ inl (rw (lost, e) rests)
            | inr (inr (reforms, on)) ↦ inr (inr (e, rw (lost, e) reforms, on))
          ]
        ]
]

-- What the fence leaves alone, and when it ends the turn.
abbrev Fenced : Watch → Round → Turn → Type 0
Fenced w r t =
    (t.watch.consecutive_force ≡ w.consecutive_force)
    × (t.watch.attempts ≡ w.attempts)
    × (bootstraps t.actions ≡ false)
    × ((t.goes_on ≡ true) ⊎ (t.goes_on ≡ false) × (r.clear_succeeds ≡ false))

apply_fence-Fenced :
    (w : Watch) (r : Round) (members : List MemberRow) (self_uuid : Str) (want_fence : Bool)
    → Fenced w r (apply_fence w r members self_uuid want_fence)
unfolding apply_fence
apply_fence-Fenced w r members self_uuid true = (refl, refl, refl, inl refl)
apply_fence-Fenced w r members self_uuid false = elim (Bool-cases w.membership_fenced) [
  | inr open_ ↦ rw open_ (refl, refl, refl, inl refl)
  | inl closed ↦
      elim (Bool-cases (
        any (λ m. is_self self_uuid m && is_online m && str_eq m.role (codes "PRIMARY")) members)) [
          | inr secondary ↦ rw (closed, secondary) (refl, refl, refl, inl refl)
          | inl primary ↦ elim (Bool-cases r.clear_succeeds) [
            | inl lifted ↦ rw (closed, primary, lifted) (refl, refl, refl, inl refl)
            | inr stuck ↦ rw (closed, primary, stuck) (refl, refl, refl, inr (refl, refl))
          ]
        ]
]

-- The four ways in which a turn ends.
pub data TurnCase (w : Watch) (r : Round) (t : Turn) : Type 0 where
  rests :
      t.watch.consecutive_force ≡ 0
      → t.watch.attempts ≡ w.attempts
      → bootstraps t.actions ≡ false
      → TurnCase w r t
  lift_fails :
      r.clear_succeeds ≡ false
      → t.watch.consecutive_force ≡ w.consecutive_force
      → t.watch.attempts ≡ w.attempts
      → bootstraps t.actions ≡ false
      → TurnCase w r t
  dwells :
      ForceRound r
      → t.watch.consecutive_force ≡ suc w.consecutive_force
      → t.watch.attempts ≡ w.attempts
      → bootstraps t.actions ≡ false
      → TurnCase w r t
  reforms :
      (members : List MemberRow)
      → r.members ≡ some members
      → Forces r members
      → ReformsOn w r (answers_of r members)
      → t.watch.consecutive_force ≡ 0
      → t.watch.attempts ≡ suc w.attempts
      → TurnCase w r t

no_bootstrap :
    (xs ys : List Action)
    → bootstraps xs ≡ false
    → bootstraps ys ≡ false
    → bootstraps (xs ++ ys) ≡ false
no_bootstrap xs ys h k = rw (any-append xs ys, h, k)

-- From the state after the fence, whose counters are those of `w`.
then_recover-TurnCase :
    (w : Watch) (r : Round) (members : List MemberRow) (t : Turn)
    → r.members ≡ some members
    → Fenced w r t
    → TurnCase w r (then_recover t r members)
then_recover-TurnCase w r members t e (cf, at, quiet_, inr (stops, fails)) =
    rw stops (lift_fails fails cf at quiet_)
then_recover-TurnCase w r members t e (cf, at, quiet_, inl goes) =
    elim (recover-cases t.watch r members) [
      | inl k ↦ rw (goes, k) (rests refl at (no_bootstrap t.actions [] quiet_ refl))
      | inr (inl (f, k)) ↦
          rw (goes, k)
            (dwells (members, e, f) (omega arith) at (no_bootstrap t.actions [] quiet_ refl))
      | inr (inr (f, k, (dwelt, left, mine, x, nothing))) ↦
          rw (goes, k)
            (reforms members e f (rw cf at dwelt, rw at at left, mine, x, nothing) refl
              (omega arith))
    ]

raise_high_water-counters :
    (w : Watch) (online : ℕ)
    → ((raise_high_water w online).watch.consecutive_force ≡ w.consecutive_force)
      × ((raise_high_water w online).watch.attempts ≡ w.attempts)
      × (bootstraps (raise_high_water w online).actions ≡ false)
unfolding raise_high_water
raise_high_water-counters w online = elim (Bool-cases (ltb w.high_water online)) [
  | inl higher ↦ rw higher (refl, refl, refl)
  | inr lower ↦ rw lower (refl, refl, refl)
]

online_turn-TurnCase :
    (c : WatchConfig) (w : Watch) (r : Round) (members : List MemberRow) (self_uuid : Str)
    → r.members ≡ some members
    → TurnCase w r (online_turn c w r members self_uuid)
unfolding online_turn
online_turn-TurnCase c w r members self_uuid e =
    let raised = raise_high_water w (online_count members) in
    let (cf, at, still) = raise_high_water-counters w (online_count members) in
    let found = effective_members c raised.watch r members in
    let (fcf, fat, fstill, goes) =
      apply_fence-Fenced (record raised.watch { seed_gone = found.0 }) r members self_uuid
        (membership_fence_wanted (online_count members) found.1
          (is_armed c raised.watch.high_water)) in
    then_recover-TurnCase w r members _ e
      (fcf ∙ cf, fat ∙ at, no_bootstrap raised.actions _ still fstill, goes)

turn_on-TurnCase :
    (c : WatchConfig) (w : Watch) (r : Round) (members : Option (List MemberRow))
    (self_uuid : Option Str)
    → r.members ≡ members
    → TurnCase w r (turn_on c w r members self_uuid)
unfolding turn_on
turn_on-TurnCase c w r none self_uuid e = rests refl refl refl
turn_on-TurnCase c w r (some members) none e = rests refl refl refl
turn_on-TurnCase c w r (some members) (some self_uuid) e =
    elim (Bool-cases (any (λ m. is_self self_uuid m && is_online m) members)) [
      | inr absent ↦ rw absent (rests refl refl refl)
      | inl online ↦ rw online (online_turn-TurnCase c w r members self_uuid e)
    ]

pub turn-TurnCase : (c : WatchConfig) (w : Watch) (r : Round) → TurnCase w r (turn c w r)
unfolding turn
turn-TurnCase c w r = turn_on-TurnCase c w r r.members r.self_uuid refl
