-- ===== src/Archiver/Reclaim.antt =====
-- mysql-wrapper/src/archiver.rs: `reclaim_decision`, and `ReclaimWatch`, which names a deferred
-- reclaim once it outlives its excuse. An instant and a duration are numbers.
pub mod Episode
use mysql_ha.Prelude.{
  ℕ, ◌+◌, ◌-◌, Bool, true, false, Option, none, some, ltb, leb, if◌then◌else◌, unwrap_or, In.here,
  In.there, Str,
}

pub data Reclaim : Type 0 where
  nothing : Reclaim
  defer purge : Str → Reclaim

unfoldable pub reclaim_decision : Option Str → Bool → Reclaim
reclaim_decision none backup_lock_held = nothing
reclaim_decision (some cut) backup_lock_held = if backup_lock_held then defer cut else purge cut

pub data DeferralCause : Type 0 where
  own_full foreign : DeferralCause

-- The named fault: for a foreign lock the passes and how long, for an own full how long.
pub data Fault : Type 0 where
  foreign_lock : ℕ → ℕ → Fault
  own_lock : ℕ → Fault

pub record ReclaimWatch : Type 0 where
  pub since : Option ℕ
  pub passes : ℕ
  pub escalated : Bool

abbrev pub new_watch : ReclaimWatch
new_watch = record { since = none; passes = 0; escalated = false }

abbrev pub is_fault : DeferralCause → ℕ → ℕ → ℕ → Bool
is_fault foreign passes elapsed full_interval = leb 2 passes
is_fault own_full passes elapsed full_interval = ltb full_interval elapsed

abbrev pub fault_of : DeferralCause → ℕ → ℕ → Fault
fault_of foreign passes elapsed = foreign_lock passes elapsed
fault_of own_full passes elapsed = own_lock elapsed

unfoldable pub deferred : ReclaimWatch → DeferralCause → ℕ → ℕ → ReclaimWatch × Option Fault
deferred watch cause full_interval now =
    let since = unwrap_or watch.since now in
    let passes = watch.passes + 1 in
    let elapsed = now - since in
    if watch.escalated
    then (record { since = some since; passes = passes; escalated = true }, none)
    else if is_fault cause passes elapsed full_interval
    then (
      record { since = some since; passes = passes; escalated = true },
      some (fault_of cause passes elapsed),
    )
    else (record { since = some since; passes = passes; escalated = false }, none)

unfoldable pub resolved : ReclaimWatch → ReclaimWatch × Bool
resolved watch = (new_watch, watch.escalated)
