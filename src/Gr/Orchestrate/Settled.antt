-- ===== src/Gr/Orchestrate/Settled.antt =====
-- mysql-wrapper/src/gr.rs, `orchestrate`: what the startup has settled before a node answers its
-- peers, and before it joins its group.
use mysql_ha.Prelude.{
  ℕ, zero, suc, ◌+◌, ◌-◌, ◌≤◌, ◌<◌, ◌≡◌, refl, sym, ap, subst, ◌⊎◌, inl, inr, Bool, true, false,
  not, Option, none, some, List, [], ◌∷◌, ◌++◌, arith, Bool-cases, length, take, any, All, Str,
  is_empty,
}
use mysql_ha.Gr.Orchestrate.Local.{Volume}
use mysql_ha.Gr.Orchestrate.Startup.{
  Startup, Attempt, Detection, adopted, ordinary, retrying, attempt_on, detect_adoption,
  on_detection, detect_on, detect, fence_attempts, fence_should_retry, FenceAttempt, fenced,
  gave_up, set_fence, joins_loop, returned, exits_process, confirm_shutdown, after_fence,
}

-- The attempt settles nothing.
abbrev pub Fails : Attempt → Type 0
Fails a =
    (a.gtid ≡ none)
    ⊎ ((set : Str) × (a.gtid ≡ some set) × (is_empty set ≡ true) × (a.persists ≡ false))

-- The outcome of the attempts, by the first that settles it.
abbrev pub Outcome : List Attempt → Detection → Type 0
Outcome attempts adopted =
    (failed later : List Attempt) × (a : Attempt) × (attempts ≡ failed ++ a ∷ later)
    × All Fails failed
    × (set : Str) × (a.gtid ≡ some set)
    × (is_empty set ≡ true)
    × (a.persists ≡ true)
Outcome attempts ordinary =
    (failed later : List Attempt) × (a : Attempt) × (attempts ≡ failed ++ a ∷ later)
    × All Fails failed
    × (set : Str) × (a.gtid ≡ some set)
    × (is_empty set ≡ false)
Outcome attempts retrying = All Fails attempts

attempt_on-cases :
    (a : Attempt) (o : Option Str)
    → a.gtid ≡ o
    → ((attempt_on a.persists o ≡ adopted)
        × (set : Str) × (o ≡ some set)
        × (is_empty set ≡ true)
        × (a.persists ≡ true))
      ⊎ ((attempt_on a.persists o ≡ ordinary)
          × (set : Str) × (o ≡ some set)
          × (is_empty set ≡ false))
      ⊎ ((attempt_on a.persists o ≡ retrying) × Fails a)
unfolding attempt_on
attempt_on-cases a none e = inr (inr (refl, inl e))
attempt_on-cases a (some set) e = elim (Bool-cases (is_empty set)) [
  | inr filled ↦ inr (inl (rw filled refl, set, refl, filled))
  | inl blank ↦ elim (Bool-cases a.persists) [
    | inl writes ↦ inl (rw (blank, writes) refl, set, refl, blank, writes)
    | inr fails ↦ inr (inr (rw (blank, fails) refl, inr (set, e, blank, fails)))
  ]
]

Outcome-later :
    (a : Attempt) (later : List Attempt) (d : Detection)
    → Fails a
    → Outcome later d
    → Outcome (a ∷ later) d
Outcome-later a later adopted f (failed, rest, b, e, all_fail, set, read, blank, writes) =
    (a ∷ failed, rest, b, ap (λ xs. a ∷ xs) e, (f, all_fail), set, read, blank, writes)
Outcome-later a later ordinary f (failed, rest, b, e, all_fail, set, read, filled) =
    (a ∷ failed, rest, b, ap (λ xs. a ∷ xs) e, (f, all_fail), set, read, filled)
Outcome-later a later retrying f all_fail = (f, all_fail)

detect_adoption-Outcome : (attempts : List Attempt) → Outcome attempts (detect_adoption attempts)
unfolding detect_adoption
detect_adoption-Outcome [] = tt
detect_adoption-Outcome (a ∷ later) = elim (attempt_on-cases a a.gtid refl) [
  | inl (e, set, read, blank, writes) ↦
      let first : detect_adoption (a ∷ later) ≡ adopted = rw (e, detect_adoption) refl in
      subst (Outcome (a ∷ later)) (sym first) ([], later, a, refl, tt, set, read, blank, writes)
  | inr (inl (e, set, read, filled)) ↦
      let first : detect_adoption (a ∷ later) ≡ ordinary = rw (e, detect_adoption) refl in
      subst (Outcome (a ∷ later)) (sym first) ([], later, a, refl, tt, set, read, filled)
  | inr (inr (e, fails)) ↦
      let next : detect_adoption (a ∷ later) ≡ detect_adoption later =
        rw (e, detect_adoption) refl in
      subst (Outcome (a ∷ later)) (sym next)
        (Outcome-later a later (detect_adoption later) fails (detect_adoption-Outcome later))
]

-- What is settled when `/gr/state` may answer.
abbrev pub Settled : Bool → Volume → List Attempt → Startup → Type 0
Settled fresh v attempts s =
    ((fresh ≡ true) × (s.volume ≡ v) × (s.issues_reset ≡ true))
    ⊎ ((v.pre_gtid ≡ true) × (s.volume ≡ v))
    ⊎ (Outcome attempts adopted × (s.volume.pre_gtid ≡ true))
    ⊎ (Outcome attempts ordinary × (s.volume ≡ v))

on_detection-Settled :
    (v : Volume) (attempts : List Attempt) (d : Detection)
    → Outcome attempts d
    → (on_detection v d).adoption_checked ≡ true
    → Settled false v attempts (on_detection v d)
unfolding on_detection
on_detection-Settled v attempts adopted o h = inr (inr (inl (o, refl)))
on_detection-Settled v attempts ordinary o h = inr (inr (inr (o, refl)))
on_detection-Settled v attempts retrying o h = cc

detect_on-Settled :
    (marked : Bool) (v : Volume) (attempts : List Attempt)
    → v.pre_gtid ≡ marked
    → (detect_on marked v attempts).adoption_checked ≡ true
    → Settled false v attempts (detect_on marked v attempts)
unfolding detect_on
detect_on-Settled true v attempts e h = inr (inl (e, refl))
detect_on-Settled false v attempts e h =
    on_detection-Settled v attempts (detect_adoption attempts) (detect_adoption-Outcome attempts) h

-- Where `/gr/state` may answer, the node's datadir is fresh and its GTIDs are being reset; or its
-- volume carries the mark of data that is older than its GTIDs; or the first attempt that settles
-- it has read an empty GTID set and has written the mark; or that attempt has read a GTID set that
-- is not empty, and the volume is as it was. Every attempt before it failed to read the set, or
-- read an empty one and failed to write the mark.
pub adoption-Settled :
    (fresh : Bool) (v : Volume) (attempts : List Attempt)
    → (detect fresh v attempts).adoption_checked ≡ true
    → Settled fresh v attempts (detect fresh v attempts)
unfolding detect
adoption-Settled true v attempts h = inl (refl, refl, refl)
adoption-Settled false v attempts h = detect_on-Settled v.pre_gtid v attempts refl h

predecessor : (n : ℕ) → 0 < n → (m : ℕ) × (n ≡ suc m)
predecessor zero h = absurd (omega arith)
predecessor (suc n) h = (n, refl)

retry-lt :
    (made now deadline : ℕ)
    → fence_should_retry (suc made) now deadline ≡ true
    → suc made < fence_attempts
unfolding fence_should_retry
retry-lt made now deadline h = ground arith

-- Within its attempts the fence is set, or given up at the latest with the last.
set_fence-cases :
    (deadline made : ℕ) (attempts : List FenceAttempt)
    → fence_attempts ≤ made + length attempts
    → made < fence_attempts
    → ((set_fence deadline made attempts ≡ fenced)
        × (any (λ a. a.succeeds) (take (fence_attempts - made) attempts) ≡ true))
      ⊎ (set_fence deadline made attempts ≡ gave_up)
unfolding set_fence fence_should_retry
set_fence-cases deadline made [] enough left = absurd (omega arith)
set_fence-cases deadline made (a ∷ later) enough left =
    let (rest, one_more) = predecessor (fence_attempts - made) (omega arith) in
    elim (Bool-cases a.succeeds) [
      | inl works ↦ inl (rw works refl, rw (one_more, works) refl)
      | inr fails ↦ elim (Bool-cases (fence_should_retry (suc made) a.now deadline)) [
        | inr spent ↦ inr (rw (fails, spent) refl)
        | inl again ↦
            let more : suc made < fence_attempts = retry-lt made a.now deadline again in
            let fewer : fence_attempts - suc made ≡ rest = omega arith in
            elim (set_fence-cases deadline (suc made) later (omega arith) more) [
              | inr e ↦ inr (rw (fails, again) e)
              | inl (e, hit) ↦
                  let hit' : any (λ x. x.succeeds) (take rest later) ≡ true = rw fewer at hit in
                  inl (rw (fails, again) e, rw (one_more, fails) hit')
            ]
      ]
    ]

-- It returns where a ping stays unanswered, and the process exits where all are answered.
confirm_shutdown-stops :
    (pings : List Bool)
    → ((confirm_shutdown pings ≡ returned) × (any not pings ≡ true))
      ⊎ ((confirm_shutdown pings ≡ exits_process) × All (λ answered. answered ≡ true) pings)
unfolding confirm_shutdown
confirm_shutdown-stops [] = inr (refl, tt)
confirm_shutdown-stops (true ∷ later) = elim (confirm_shutdown-stops later) [
  | inl (e, silent) ↦ inl (e, silent)
  | inr (e, all_answered) ↦ inr (e, (refl, all_answered))
]
confirm_shutdown-stops (false ∷ later) = inl (refl, refl)

-- A node whose attempts at the write fence come back either goes on to join its group, with the
-- fence set by one of its first three attempts, or ends: orchestration returns, and then mysqld has
-- left one of the pings unanswered, or the process exits, and then mysqld has answered all of them.
pub never_unfenced :
    (deadline : ℕ) (attempts : List FenceAttempt) (pings : List Bool)
    → fence_attempts ≤ length attempts
    → ((after_fence (set_fence deadline 0 attempts) pings ≡ joins_loop)
        × (any (λ a. a.succeeds) (take fence_attempts attempts) ≡ true))
      ⊎ ((after_fence (set_fence deadline 0 attempts) pings ≡ returned) × (any not pings ≡ true))
      ⊎ ((after_fence (set_fence deadline 0 attempts) pings ≡ exits_process)
          × All (λ answered. answered ≡ true) pings)
unfolding after_fence
never_unfenced deadline attempts pings enough =
    elim (set_fence-cases deadline 0 attempts (omega arith) (omega arith)) [
      | inl (e, hit) ↦ inl (rw e refl, hit)
      | inr e ↦ inr (rw e (confirm_shutdown-stops pings))
    ]
