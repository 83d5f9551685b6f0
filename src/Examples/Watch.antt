-- ===== src/Examples/Watch.antt =====
-- mysql-wrapper/src/gr.rs, `majority_watch`, at concrete inputs: a lone survivor of two members.
use mysql_ha.Prelude.{
  ℕ, zero, suc, ◌≤◌, ◌≡◌, refl, true, false, some, List, [], ◌∷◌, arith, In, Str, codes,
}
use mysql_ha.Gr.State.{PeerAnswer, MemberRow}
use mysql_ha.Gr.Gone.{
  exists_or_unknown, observe, observe_reachable, is_waived, or_insert, remove, get,
}
use mysql_ha.Gr.Majority.{
  reachable_count, is_reachable, membership_fence_wanted, departures, blocked_by,
  majority_loss_recovery_verdict,
}
use mysql_ha.Gr.Majority.Departed.{ProvablyOut}
use mysql_ha.Gr.Watch.{
  WatchConfig, Round, bootstraps, force_max_attempts, initial, is_armed, probe_seeds,
  effective_members, raise_high_water, apply_fence, holds_nothing_more, reform_actions, force_round,
  recover, online_turn, turn_on, turn, watch_after, set_super_read_only,
}
use mysql_ha.Gr.Watch.Reform.{
  Dwelt, Covered, bootstrap_dwells, bootstrap_proven, reforms_in, reforms_capped,
}
use mysql_ha.Gr.Watch.Turns.{ForceRound}
use mysql_ha.Gr.Watch.Fence.{fence_after_majority}
use mysql_ha.Examples.Group.{idle_state, by_length, row, survivor_view}

abbrev two_seeds : WatchConfig
two_seeds = record {
  seeds = codes "mysql-1" ∷ codes "mysql-2" ∷ [];
  gone_dwell = 60;
  marker = some 2;
}

abbrev round_of : List MemberRow → Round
round_of members = record {
  members = some members;
  self_uuid = some (codes "MYSQL-1");
  now = 100;
  name_of = λ host. exists_or_unknown;
  group_name = some (codes "g");
  answer_from = λ host. PeerAnswer.state (idle_state (codes "u:1-9"));
  executed_gtid_set = some (codes "u:1-50");
  gtid_compare = by_length;
  clear_succeeds = true;
  stop_succeeds = true;
  bootstrap_succeeds = true;
}

abbrev alone : Round
alone = round_of survivor_view

abbrev together : Round
together = round_of (
    row (codes "mysql-1") (codes "ONLINE") (codes "PRIMARY")
    ∷ row (codes "mysql-2") (codes "ONLINE") (codes "SECONDARY")
    ∷ [])

abbrev times {ℓ} : {A : Type ℓ} → ℕ → A → List A → List A
times zero x xs = xs
times (suc n) x xs = x ∷ times n x xs

abbrev history : List Round
history = times 14 alone (together ∷ [])

fifteenth_bootstraps :
    bootstraps
      (turn two_seeds (watch_after two_seeds (initial two_seeds false) history) alone).actions
    ≡ true
unfolding turn turn_on online_turn watch_after raise_high_water effective_members probe_seeds
    is_armed apply_fence recover force_round reform_actions holds_nothing_more
    majority_loss_recovery_verdict departures blocked_by membership_fence_wanted observe
    observe_reachable is_waived or_insert remove get
fifteenth_bootstraps = refl

bootstrap_dwells_example : ForceRound alone × Dwelt 14 history
bootstrap_dwells_example = bootstrap_dwells two_seeds false alone history fifteenth_bootstraps

reforms_capped_example : reforms_in two_seeds false (alone ∷ history) ≤ force_max_attempts
reforms_capped_example = reforms_capped two_seeds false (alone ∷ history)

bootstrap_proven_example :
    (members : List MemberRow) × (alone.members ≡ some members)
    × (reachable_count members ≡ 1)
    × (name : Str) × (alone.group_name ≡ some name)
    × (mine : Str) × (alone.executed_gtid_set ≡ some mine)
    × ((m : MemberRow)
        → In m members
        → is_reachable m ≡ false
        → ProvablyOut name (some (alone.answer_from m.host))
          × Covered alone.gtid_compare mine (alone.answer_from m.host))
bootstrap_proven_example =
    bootstrap_proven two_seeds (watch_after two_seeds (initial two_seeds false) history) alone
      fifteenth_bootstraps

fence_after_majority_example :
    ((turn two_seeds
        (watch_after two_seeds (initial two_seeds false) (together ∷ []))
        alone).watch.membership_fenced
      ≡ true)
    × In set_super_read_only
        (turn two_seeds
          (watch_after two_seeds (initial two_seeds false) (together ∷ []))
          alone).actions
fence_after_majority_example =
    fence_after_majority two_seeds (initial two_seeds false) (together ∷ []) alone together
      survivor_view
      (row (codes "mysql-1") (codes "ONLINE") (codes "PRIMARY")
        ∷ row (codes "mysql-2") (codes "ONLINE") (codes "SECONDARY")
        ∷ [])
      (omega arith) In.here (refl, codes "MYSQL-1", refl, refl) (omega arith)
      (refl, codes "MYSQL-1", refl, refl) (omega arith) (λ seed m. refl)
