-- ===== src/Archiver/Reclaim/Episode.antt =====
-- mysql-wrapper/src/archiver.rs: an episode of deferred reclaims names its fault exactly once.
use mysql_ha.Prelude.{
  ℕ, ◌+◌, ◌-◌, ◌≡◌, refl, ap, ◌∙◌, inl, inr, Bool, true, false, not, ◌&&◌, ◌||◌, Option, some, List,
  [], ◌∷◌, arith, ltb, leb, if◌then◌else◌, is_some, Bool-cases,
}
use mysql_ha.Archiver.Reclaim.{
  DeferralCause, own_full, foreign, Fault, ReclaimWatch, new_watch, is_fault, deferred, resolved,
}

-- How many of the deferred passes of an episode name a fault.
unfoldable pub named_in : ℕ → ReclaimWatch → List (DeferralCause × ℕ) → ℕ
named_in full_interval watch [] = 0
named_in full_interval watch ((cause, now) ∷ rest) =
    let later = named_in full_interval (deferred watch cause full_interval now).0 rest in
    if is_some (deferred watch cause full_interval now).1 then later + 1 else later

unfoldable pub watch_after : ℕ → ReclaimWatch → List (DeferralCause × ℕ) → ReclaimWatch
watch_after full_interval watch [] = watch
watch_after full_interval watch ((cause, now) ∷ rest) =
    watch_after full_interval (deferred watch cause full_interval now).0 rest

-- A pass is due to be named: a foreign lock after the first pass, or an own full that has held the
-- lock longer than the interval since the first pass.
abbrev pub outlives : DeferralCause → ℕ → ℕ → ℕ → Bool
outlives foreign position elapsed full_interval = leb 1 position
outlives own_full position elapsed full_interval = ltb full_interval elapsed

-- Some pass of the episode is due.
abbrev pub is_due : ℕ → ℕ → ℕ → List (DeferralCause × ℕ) → Bool
is_due full_interval began position [] = false
is_due full_interval began position ((cause, now) ∷ rest) =
    outlives cause position (now - began) full_interval
    || is_due full_interval began (position + 1) rest

abbrev pub bit : Bool → ℕ
bit true = 1
bit false = 0

outlives-is_fault :
    (cause : DeferralCause) (passes elapsed full_interval : ℕ)
    → is_fault cause (passes + 1) elapsed full_interval
      ≡ outlives cause passes elapsed full_interval
outlives-is_fault foreign passes elapsed full_interval = ground arith
outlives-is_fault own_full passes elapsed full_interval = refl

abbrev running : ℕ → ℕ → Bool → ReclaimWatch
running began passes escalated = record {
  since = some began;
  passes = passes;
  escalated = escalated;
}

or_assoc : (a b c : Bool) → ((a || b) || c) ≡ (a || (b || c))
or_assoc true b c = refl
or_assoc false b c = refl

tally :
    (escalated due later : Bool) {n : ℕ}
    → n ≡ bit (not (escalated || due) && later)
    → (if not escalated && due then n + 1 else n) ≡ bit (not escalated && (due || later))
tally true due later e = e
tally false true later e = ap (λ (k : ℕ). k + 1) e
tally false false later e = e

-- A pass of an episode that began at an instant.
deferred-running :
    (began passes : ℕ) (escalated : Bool) (cause : DeferralCause) (full_interval now : ℕ)
    → ((deferred (running began passes escalated) cause full_interval now).0
        ≡ running began
            (passes + 1)
            (escalated || outlives cause passes (now - began) full_interval))
      × (is_some (deferred (running began passes escalated) cause full_interval now).1
          ≡ (not escalated && outlives cause passes (now - began) full_interval))
unfolding deferred
deferred-running began passes true cause full_interval now = (refl, refl)
deferred-running began passes false cause full_interval now =
    let same = outlives-is_fault cause passes (now - began) full_interval in
    elim (Bool-cases (outlives cause passes (now - began) full_interval)) [
      | inl e ↦ rw (same, e) (refl, refl)
      | inr e ↦ rw (same, e) (refl, refl)
    ]

named_in-running :
    (full_interval began passes : ℕ) (escalated : Bool) (episode : List (DeferralCause × ℕ))
    → (named_in full_interval (running began passes escalated) episode
        ≡ bit (not escalated && is_due full_interval began passes episode))
      × ((watch_after full_interval (running began passes escalated) episode).escalated
          ≡ (escalated || is_due full_interval began passes episode))
unfolding named_in watch_after
named_in-running full_interval began passes true [] = (refl, refl)
named_in-running full_interval began passes false [] = (refl, refl)
named_in-running full_interval began passes escalated ((cause, now) ∷ rest) =
    let (next, named) = deferred-running began passes escalated cause full_interval now in
    let due = outlives cause passes (now - began) full_interval in
    let ih = named_in-running full_interval began (passes + 1) (escalated || due) rest in
    (
      rw (named, next) (tally escalated due (is_due full_interval began (passes + 1) rest) ih.0),
      ap (λ (w : ReclaimWatch). (watch_after full_interval w rest).escalated) next
          ∙ ih.1
          ∙ or_assoc escalated due _,
    )

first_pass :
    (full_interval began : ℕ) (cause : DeferralCause)
    → deferred new_watch cause full_interval began
      ≡ deferred (running began 0 false) cause full_interval began
unfolding deferred
first_pass full_interval began cause = refl

-- An episode of deferred passes, from its first one on, names its fault exactly once if some pass of
-- it is due and never otherwise; and ending it reports whether one was named.
-- A pass is due that finds the lock of another session and is not the first of the episode, whoever
-- held the lock in the passes before it, or that finds the node's own full past the interval.
pub episode_names_once :
    (full_interval began : ℕ) (cause : DeferralCause) (rest : List (DeferralCause × ℕ))
    → (named_in full_interval new_watch ((cause, began) ∷ rest)
        ≡ bit (is_due full_interval began 0 ((cause, began) ∷ rest)))
      × ((resolved (watch_after full_interval new_watch ((cause, began) ∷ rest))).1
          ≡ is_due full_interval began 0 ((cause, began) ∷ rest))
unfolding resolved named_in watch_after
episode_names_once full_interval began cause rest =
    let r = named_in-running full_interval began 0 false ((cause, began) ∷ rest) in
    let same = first_pass full_interval began cause in
    (
      rw same r.0,
      ap (λ (d : ReclaimWatch × Option Fault). (watch_after full_interval d.0 rest).escalated) same
          ∙ r.1,
    )
