-- ===== src/Archiver/Supervisor/Primary.antt =====
-- mysql-wrapper/src/archiver.rs: a member archives only as the writable primary, and a member that is
-- not keeps no binlog for ever.
use mysql_ha.Prelude.{
  ℕ, zero, suc, ◌<◌, ◌≡◌, ◌≢◌, refl, ◌⊎◌, inl, inr, Bool, true, false, ◌||◌, Option, none, some,
  List, [], ◌∷◌, arith, any,
}
use mysql_ha.Archiver.Latch.{PitrStatus, stop_archiving}
use mysql_ha.Archiver.Supervisor.{
  SetOutcome, applied, applied_unanswered, not_applied, start_archiver, expire_again, Poll,
  Supervisor, verdict_of, note_started, reap, act, hand_back, poll, after_polls,
}

abbrev pub newer : Option Bool → Option Bool → Option Bool
newer none v = v
newer (some b) v = some b

-- The newest verdict that could be read.
abbrev pub newest_verdict : List Poll → Option Bool
newest_verdict [] = none
newest_verdict (p ∷ polls) = newer (verdict_of p) (newest_verdict polls)

-- The poll switches the expiry off and takes it for not done: the server's answer does not come.
abbrev pub loses_expiry : Option Bool → SetOutcome → Bool
loses_expiry (some true) applied_unanswered = true
loses_expiry _ _ = false

abbrev pub is_lossy : Poll → Bool
is_lossy p = loses_expiry (verdict_of p) p.set_outcome

-- The archiver reports that it archives only while it runs, it runs only on the verdict that this is
-- the writable primary, and the expiry is off only while it is owned, or after a lost answer.
abbrev pub IsConsistent : Option Bool → Bool → Supervisor → Type 0
IsConsistent v lossy s =
    (s.status.archiving ≡ true → s.running ≡ true)
    × (s.running ≡ true → v ≡ some true)
    × (s.expire_logs_seconds ≡ 0 → (s.owns_expiry ≡ true) ⊎ (lossy ≡ true))

abbrev supervisor : Bool → Bool → ℕ → PitrStatus → Supervisor
supervisor running owns_expiry expire_logs_seconds status = record {
  running = running;
  owns_expiry = owns_expiry;
  expire_logs_seconds = expire_logs_seconds;
  status = status;
}

note-kept :
    (p : Poll) (v : Option Bool) (z run own started : Bool) (expiry : ℕ) (status : PitrStatus)
    → p.started ≡ started
    → IsConsistent v z (supervisor run own expiry status)
    → IsConsistent v z (note_started p (supervisor run own expiry status))
unfolding note_started
note-kept p v z true own true expiry status q (a, r, e) = rw q (λ _. refl, r, e)
note-kept p v z true own false expiry status q h = rw q h
note-kept p v z false own started expiry status q h = h

reap-kept :
    (p : Poll) (v : Option Bool) (z run own finished : Bool) (expiry : ℕ) (status : PitrStatus)
    → p.finished ≡ finished
    → IsConsistent v z (supervisor run own expiry status)
    → IsConsistent v z (reap p (supervisor run own expiry status))
unfolding reap
reap-kept p v z true own true expiry status q (a, r, e) = rw q (λ h. cc, λ h. cc, e)
reap-kept p v z true own false expiry status q h = rw q h
reap-kept p v z false own finished expiry status q h = h

act-kept :
    (w v : Option Bool) (z : Bool) (o : SetOutcome) (run own : Bool) (expiry : ℕ)
    (status : PitrStatus)
    → IsConsistent v z (supervisor run own expiry status)
    → IsConsistent (newer w v) (loses_expiry w o || z) (act w o (supervisor run own expiry status))
unfolding act start_archiver stop_archiving
act-kept none v z o run own expiry status h = h
act-kept (some true) v true applied_unanswered true own expiry status (a, r, e) =
    (a, λ _. refl, λ _. inr refl)
act-kept (some true) v false applied_unanswered true own expiry status (a, r, e) =
    (a, λ _. refl, λ _. inr refl)
act-kept (some true) v z applied true own expiry status (a, r, e) = (a, λ _. refl, e)
act-kept (some true) v z not_applied true own expiry status (a, r, e) = (a, λ _. refl, e)
act-kept (some true) v z applied false own expiry status (a, r, e) =
    (λ _. refl, λ _. refl, λ _. inl refl)
act-kept (some true) v z applied_unanswered false own expiry status (a, r, e) =
    (λ _. refl, λ _. refl, λ _. inr refl)
act-kept (some true) v z not_applied false own expiry status (a, r, e) = (λ _. refl, λ _. refl, e)
act-kept (some false) v z o true own expiry status (a, r, e) = (λ h. cc, λ h. cc, e)
act-kept (some false) v z o false own expiry status (a, r, e) = (a, λ h. cc, e)

hand_back-kept :
    (w v : Option Bool) (z : Bool) (o : SetOutcome) (run own : Bool) (expiry : ℕ)
    (status : PitrStatus)
    → IsConsistent v z (supervisor run own expiry status)
    → IsConsistent v z (hand_back w o (supervisor run own expiry status))
unfolding hand_back expire_again
hand_back-kept none v z o run own expiry status h = h
hand_back-kept (some true) v z o run own expiry status h = h
hand_back-kept (some false) v z applied run true expiry status (a, r, e) =
    (a, r, λ q. absurd (omega (arith, q)))
hand_back-kept (some false) v z applied_unanswered run true expiry status (a, r, e) =
    (a, r, λ q. absurd (omega (arith, q)))
hand_back-kept (some false) v z not_applied run true expiry status h = h
hand_back-kept (some false) v z o run false expiry status h = h

acted : Poll → Supervisor → Supervisor
acted p s = act (verdict_of p) p.set_outcome (reap p (note_started p s))

acted-kept :
    (p : Poll) (v : Option Bool) (z : Bool) (s : Supervisor)
    → IsConsistent v z s
    → IsConsistent (newer (verdict_of p) v) (is_lossy p || z) (acted p s)
unfolding acted
acted-kept p v z s h =
    let t = note_started p s in
    let u = reap p t in
    let ht =
      note-kept p v z s.running s.owns_expiry p.started s.expire_logs_seconds s.status refl h in
    let hu =
      reap-kept p v z t.running t.owns_expiry p.finished t.expire_logs_seconds t.status refl ht in
    act-kept (verdict_of p) v z p.set_outcome u.running u.owns_expiry u.expire_logs_seconds u.status
      hu

poll-kept :
    (p : Poll) (v : Option Bool) (z : Bool) (s : Supervisor)
    → IsConsistent v z s
    → IsConsistent (newer (verdict_of p) v) (is_lossy p || z) (poll s p)
unfolding poll acted
poll-kept p v z s h =
    let t = acted p s in
    hand_back-kept (verdict_of p) (newer (verdict_of p) v) (is_lossy p || z) p.set_outcome t.running
      t.owns_expiry t.expire_logs_seconds t.status (acted-kept p v z s h)

after_polls-kept :
    (configured_expiry : ℕ) (polls : List Poll)
    → 0 < configured_expiry
    → IsConsistent (newest_verdict polls) (any is_lossy polls) (after_polls configured_expiry polls)
unfolding after_polls
after_polls-kept configured_expiry [] h = (λ z. cc, λ z. cc, λ z. absurd (omega (arith, h, z)))
after_polls-kept configured_expiry (p ∷ polls) h =
    poll-kept p (newest_verdict polls) (any is_lossy polls) (after_polls configured_expiry polls)
      (after_polls-kept configured_expiry polls h)

owned-of : (own lossy : Bool) → lossy ≡ false → (own ≡ true) ⊎ (lossy ≡ true) → own ≡ true
owned-of own lossy kept (inl owned) = owned
owned-of own lossy kept (inr lost) = cc

hand_back-expires :
    (w : Option Bool) (o : SetOutcome) (run own : Bool) (expiry : ℕ) (status : PitrStatus)
    → w ≡ some false
    → o ≢ not_applied
    → (expiry ≡ 0 → own ≡ true)
    → 0 < (hand_back w o (supervisor run own expiry status)).expire_logs_seconds
unfolding hand_back expire_again
hand_back-expires none o run own expiry status v set owned = cc
hand_back-expires (some true) o run own expiry status v set owned = cc
hand_back-expires (some false) applied run true expiry status v set owned = omega arith
hand_back-expires (some false) applied_unanswered run true expiry status v set owned = omega arith
hand_back-expires (some false) not_applied run true expiry status v set owned = absurd (set refl)
hand_back-expires (some false) o run false zero status v set owned = absurd (cc (owned refl))
hand_back-expires (some false) o run false (suc n) status v set owned = omega arith

-- Whatever the polls of a supervisor found, from an expiry of the configuration that is not zero on:
-- the node reports that it archives only if the newest verdict that could be read made it the
-- writable primary behind no fence, and mysqld's expiry is switched off only while the supervisor
-- knows that it owns it, unless a poll that read the node as the writable primary lost the answer to
-- its write of the expiry, which the server had applied.
pub archives_as_primary :
    (configured_expiry : ℕ) (polls : List Poll)
    → 0 < configured_expiry
    → ((after_polls configured_expiry polls).status.archiving ≡ true
        → newest_verdict polls ≡ some true)
      × ((after_polls configured_expiry polls).expire_logs_seconds ≡ 0
          → ((after_polls configured_expiry polls).owns_expiry ≡ true)
            ⊎ (any is_lossy polls ≡ true))
archives_as_primary configured_expiry polls h =
    let (archives, runs, owned) = after_polls-kept configured_expiry polls h in
    (λ a. runs (archives a), owned)

-- A poll that reads the node as no writable primary, or as fenced, leaves mysqld to expire its
-- binlogs again, where the server applies what the poll writes, whether its answer comes or not. The
-- expiry of the configuration is not zero, and no poll before that read the node as the writable
-- primary lost the answer to a write of the expiry that the server applied.
pub demoted_expires :
    (configured_expiry : ℕ) (polls : List Poll) (p : Poll)
    → 0 < configured_expiry
    → any is_lossy polls ≡ false
    → verdict_of p ≡ some false
    → p.set_outcome ≢ not_applied
    → 0 < (after_polls configured_expiry (p ∷ polls)).expire_logs_seconds
unfolding after_polls poll acted
demoted_expires configured_expiry polls p h kept v set =
    let s = after_polls configured_expiry polls in
    let t = acted p s in
    let (_, _, owned) =
      acted-kept p (newest_verdict polls) (any is_lossy polls) s
        (after_polls-kept configured_expiry polls h) in
    let none_lost : is_lossy p || any is_lossy polls ≡ false = rw (v, kept) refl in
    hand_back-expires (verdict_of p) p.set_outcome t.running t.owns_expiry t.expire_logs_seconds
      t.status v set (λ z. owned-of t.owns_expiry _ none_lost (owned z))
