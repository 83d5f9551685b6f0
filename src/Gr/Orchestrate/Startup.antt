-- ===== src/Gr/Orchestrate/Startup.antt =====
-- mysql-wrapper/src/gr.rs, `orchestrate`: the steps before the loop, from the detection of an
-- adopted volume to the write fence. A loop that retries without a bound is run on the list of
-- what its attempts find, and may be left unfinished by it.
use mysql_ha.Prelude.{
  ℕ, suc, Bool, true, false, ◌&&◌, Option, none, some, List, [], ◌∷◌, ltb, if◌then◌else◌, Str,
  is_empty,
}
use mysql_ha.Gr.Orchestrate.Local.{Volume}

-- What the detection leaves: the volume, whether `/gr/state` may answer, and whether it has had the
-- node's GTIDs reset.
pub record Startup : Type 0 where
  pub volume : Volume
  pub adoption_checked : Bool
  pub issues_reset : Bool

-- One attempt at detection: the GTID set that is read, and whether the marker is written.
pub record Attempt : Type 0 where
  pub gtid : Option Str
  pub persists : Bool

pub data Detection : Type 0 where
  adopted ordinary retrying : Detection

unfoldable pub attempt_on : Bool → Option Str → Detection
attempt_on persists none = retrying
attempt_on persists (some set) =
    if is_empty set then (if persists then adopted else retrying) else ordinary

-- The loop of detection, over its attempts.
unfoldable pub detect_adoption : List Attempt → Detection
detect_adoption [] = retrying
detect_adoption (a ∷ later) =
    let rest = detect_adoption later in
    elim (attempt_on a.persists a.gtid) [
      | adopted ↦ adopted
      | ordinary ↦ ordinary
      | retrying ↦ rest
    ]

abbrev pub checked : Volume → Bool → Startup
checked v reset = record { volume = v; adoption_checked = true; issues_reset = reset }

unfoldable pub on_detection : Volume → Detection → Startup
on_detection v adopted = checked (record v { pre_gtid = true }) false
on_detection v ordinary = checked v false
on_detection v retrying = record { volume = v; adoption_checked = false; issues_reset = false }

unfoldable pub detect_on : Bool → Volume → List Attempt → Startup
detect_on true v attempts = checked v false
detect_on false v attempts = on_detection v (detect_adoption attempts)

-- By whether the datadir is fresh, and whether the marker stands already.
unfoldable pub detect : Bool → Volume → List Attempt → Startup
detect true v attempts = checked v true
detect false v attempts = detect_on v.pre_gtid v attempts

abbrev pub fence_attempts : ℕ
fence_attempts = 3

abbrev pub fence_total_deadline : ℕ
fence_total_deadline = 180

unfoldable pub fence_should_retry : ℕ → ℕ → ℕ → Bool
fence_should_retry attempt now deadline = ltb attempt fence_attempts && ltb now deadline

-- One attempt at the fence, and the instant after a failed one.
pub record FenceAttempt : Type 0 where
  pub succeeds : Bool
  pub now : ℕ

pub data FenceOutcome : Type 0 where
  fenced gave_up unfinished : FenceOutcome

-- The loop of the fence, from the number of the attempts already made.
unfoldable pub set_fence : ℕ → ℕ → List FenceAttempt → FenceOutcome
set_fence deadline made [] = unfinished
set_fence deadline made (a ∷ later) =
    let rest = set_fence deadline (suc made) later in
    if a.succeeds
    then fenced
    else if fence_should_retry (suc made) a.now deadline
    then rest
    else gave_up

-- The shutdown is watched until a deadline: each ping before it either fails, mysqld being on its
-- way down, or is answered.
pub data Ending : Type 0 where
  joins_loop returned exits_process waiting : Ending

unfoldable pub confirm_shutdown : List Bool → Ending
confirm_shutdown [] = exits_process
confirm_shutdown (answered ∷ later) =
    let rest = confirm_shutdown later in if answered then rest else returned

-- What becomes of the process after the fence.
unfoldable pub after_fence : FenceOutcome → List Bool → Ending
after_fence fenced pings = joins_loop
after_fence gave_up pings = confirm_shutdown pings
after_fence unfinished pings = waiting
