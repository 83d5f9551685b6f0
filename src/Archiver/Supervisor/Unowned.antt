-- ===== src/Archiver/Supervisor/Unowned.antt =====
-- mysql-wrapper/src/archiver.rs: a binlog expiry that was switched off by a write whose answer was lost.
use mysql_ha.Prelude.{
  ℕ, ◌≡◌, ◌≢◌, refl, Bool, true, false, Option, none, some, List, [], ◌∷◌, ◌++◌, arith, All,
}
use mysql_ha.Archiver.Supervisor.{
  SetOutcome, applied, applied_unanswered, not_applied, start_archiver, expire_again, Poll,
  Supervisor, verdict_of, note_started, reap, act, hand_back, poll, after_polls,
}

-- The expiry is off, and the supervisor does not own it.
abbrev IsUnowned : Supervisor → Type 0
IsUnowned s = (s.expire_logs_seconds ≡ 0) × (s.owns_expiry ≡ false)

-- What happens before a poll acts leaves the expiry.
found-IsUnowned : (p : Poll) (s : Supervisor) → IsUnowned s → IsUnowned (reap p (note_started p s))
unfolding reap note_started
found-IsUnowned p s h = ground arith

act-IsUnowned :
    (w : Option Bool) (o : SetOutcome) (s : Supervisor)
    → w ≢ some true
    → IsUnowned s
    → IsUnowned (hand_back w o (act w o s))
unfolding act hand_back start_archiver expire_again
act-IsUnowned none o s v h = h
act-IsUnowned (some true) o s v h = absurd (v refl)
act-IsUnowned (some false) o s v h = ground arith

lost-IsUnowned :
    (w : Option Bool) (o : SetOutcome) (s : Supervisor)
    → w ≡ some true
    → o ≡ applied_unanswered
    → s.running ≡ false
    → s.owns_expiry ≡ false
    → IsUnowned (hand_back w o (act w o s))
unfolding act hand_back start_archiver
lost-IsUnowned none o s v set idle bare = cc
lost-IsUnowned (some false) o s v set idle bare = cc
lost-IsUnowned (some true) applied s v set idle bare = cc
lost-IsUnowned (some true) not_applied s v set idle bare = cc
lost-IsUnowned (some true) applied_unanswered s v set idle bare = ground arith

idle-found : (p : Poll) (s : Supervisor) → s.running ≡ false → reap p (note_started p s) ≡ s
unfolding reap note_started
idle-found p s idle = rw (idle, note_started, reap) refl

after_polls-IsUnowned :
    (configured_expiry : ℕ) (later polls : List Poll)
    → IsUnowned (after_polls configured_expiry polls)
    → All (λ q. verdict_of q ≢ some true) later
    → IsUnowned (after_polls configured_expiry (later ++ polls))
unfolding after_polls poll
after_polls-IsUnowned configured_expiry [] polls h down = h
after_polls-IsUnowned configured_expiry (q ∷ later) polls h down =
    let s = after_polls configured_expiry (later ++ polls) in
    act-IsUnowned (verdict_of q) q.set_outcome (reap q (note_started q s)) down.0
      (found-IsUnowned q s (after_polls-IsUnowned configured_expiry later polls h down.1))

-- Where a poll that starts the archiver, and does not own the expiry, loses the answer to the write
-- that switches the expiry off, which the server applied: as long as no later poll reads the node as
-- the writable primary, mysqld's expiry stays off, however often the polls read it as none.
pub lost_answer_stays_off :
    (configured_expiry : ℕ) (polls later : List Poll) (p : Poll)
    → (after_polls configured_expiry polls).running ≡ false
    → (after_polls configured_expiry polls).owns_expiry ≡ false
    → verdict_of p ≡ some true
    → p.set_outcome ≡ applied_unanswered
    → All (λ q. verdict_of q ≢ some true) later
    → (after_polls configured_expiry (later ++ (p ∷ polls))).expire_logs_seconds ≡ 0
lost_answer_stays_off configured_expiry polls later p idle bare v lost down =
    (after_polls-IsUnowned configured_expiry later (p ∷ polls)
      (unfold after_polls poll in
        let s = after_polls configured_expiry polls in
        rw (idle-found p s idle) (lost-IsUnowned (verdict_of p) p.set_outcome s v lost idle bare))
      down).0
