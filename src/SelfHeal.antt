-- ===== src/SelfHeal.antt =====
-- mysql-wrapper/src/self_heal.rs: the attempt budget and the pacing of heals (`HealLedger`,
-- `backoff_gap_seconds`, `heal_gate`). A `u32` and a `u64` saturate where the source's do.
use mysql_ha.Prelude.{
  ◌&&◌, ℕ, zero, suc, ◌+◌, ◌-◌, ◌*◌, ◌^◌, ◌≤◌, ◌<◌, min, ◌≡◌, inl, inr, Bool, true, false, List, [],
  ◌∷◌, arith, ltb, leb, if◌then◌else◌, Bool-cases, refl, any,
}

abbrev pub u32_max : ℕ
u32_max = 2 ^ 32 - 1

abbrev pub u64_max : ℕ
u64_max = 2 ^ 64 - 1

pub record HealLedger : Type 0 where
  pub attempts : ℕ
  pub last_unix : ℕ

unfoldable pub bump : HealLedger → ℕ → HealLedger
bump ledger now_unix = record { attempts = min (ledger.attempts + 1) u32_max; last_unix = now_unix }

unfoldable pub backoff_gap_seconds : ℕ → ℕ → ℕ
backoff_gap_seconds base zero = 0
backoff_gap_seconds base (suc n) = min (base * 2 ^ min n 16) u64_max

pub data HealGate : Type 0 where
  go cap_reached backing_off : HealGate

unfoldable pub heal_gate : HealLedger → ℕ → ℕ → ℕ → HealGate
heal_gate ledger cap backoff_base now_unix =
    if leb cap ledger.attempts
    then cap_reached
    else if ltb now_unix
        (min (ledger.last_unix + backoff_gap_seconds backoff_base ledger.attempts) u64_max)
    then backing_off
    else go

abbrev pub is_go : HealGate → Bool
is_go go = true
is_go cap_reached = false
is_go backing_off = false

-- How `wipe_datadir` ends, which removes the entries in the order that the directory lists them:
-- it empties the datadir, or fails at an entry before the ledger's marker, or at one behind it, when
-- the marker is gone.
pub data Wipe : Type 0 where
  emptied failed_before_ledger failed_past_ledger : Wipe

abbrev pub empties : Wipe → Bool
empties emptied = true
empties failed_before_ledger = false
empties failed_past_ledger = false

abbrev pub loses_ledger : Wipe → Bool
loses_ledger emptied = false
loses_ledger failed_before_ledger = false
loses_ledger failed_past_ledger = true

-- What one boot over a wedged datadir finds: the time, whether a peer confirms itself as primary,
-- and how a wipe ends.
pub record Boot : Type 0 where
  pub now_unix : ℕ
  pub donor_confirmed : Bool
  pub wipe : Wipe

-- The boot sets out to discard the datadir.
unfoldable pub attempts_wipe : ℕ → ℕ → HealLedger → Boot → Bool
attempts_wipe cap backoff_base ledger boot =
    is_go (heal_gate ledger cap backoff_base boot.now_unix) && boot.donor_confirmed

-- The boot discards the datadir.
unfoldable pub discards : ℕ → ℕ → HealLedger → Boot → Bool
discards cap backoff_base ledger boot =
    attempts_wipe cap backoff_base ledger boot && empties boot.wipe

-- What the next boot reads where the marker is missing.
abbrev pub fresh_ledger : HealLedger
fresh_ledger = record { attempts = 0; last_unix = 0 }

after_wipe : Wipe → HealLedger → ℕ → HealLedger
after_wipe emptied ledger now_unix = bump ledger now_unix
after_wipe failed_before_ledger ledger now_unix = ledger
after_wipe failed_past_ledger ledger now_unix = fresh_ledger

-- The ledger that the next boot reads.
unfoldable pub pass : ℕ → ℕ → HealLedger → Boot → HealLedger
unfolding after_wipe
pass cap backoff_base ledger boot =
    if attempts_wipe cap backoff_base ledger boot
    then after_wipe boot.wipe ledger boot.now_unix
    else ledger

-- How many of the boots discard the datadir.
unfoldable pub wipes : ℕ → ℕ → HealLedger → List Boot → ℕ
wipes cap backoff_base ledger [] = 0
wipes cap backoff_base ledger (boot ∷ rest) =
    let later = wipes cap backoff_base (pass cap backoff_base ledger boot) rest in
    if discards cap backoff_base ledger boot then later + 1 else later

discards_below_cap :
    (ledger : HealLedger) (cap backoff_base : ℕ) (boot : Boot)
    → discards cap backoff_base ledger boot ≡ true
    → ledger.attempts < cap
unfolding discards attempts_wipe heal_gate
discards_below_cap ledger cap backoff_base boot h = ground arith

pass-discards :
    (cap backoff_base : ℕ) (ledger : HealLedger) (boot : Boot) (wipe : Wipe)
    → boot.wipe ≡ wipe
    → attempts_wipe cap backoff_base ledger boot && empties wipe ≡ true
    → pass cap backoff_base ledger boot ≡ bump ledger boot.now_unix
unfolding pass after_wipe
pass-discards cap backoff_base ledger boot emptied e h =
    elim (Bool-cases (attempts_wipe cap backoff_base ledger boot)) [
      | inl begins ↦ rw (begins, pass, e) refl
      | inr held ↦ cc (let x : false ≡ true = rw held at h in x)
    ]
pass-discards cap backoff_base ledger boot failed_before_ledger e h = ground arith
pass-discards cap backoff_base ledger boot failed_past_ledger e h = ground arith

after_wipe-keeps :
    (wipe : Wipe) (ledger : HealLedger) (now_unix : ℕ)
    → empties wipe ≡ false
    → loses_ledger wipe ≡ false
    → after_wipe wipe ledger now_unix ≡ ledger
unfolding after_wipe
after_wipe-keeps emptied ledger now_unix a b = cc
after_wipe-keeps failed_before_ledger ledger now_unix a b = refl
after_wipe-keeps failed_past_ledger ledger now_unix a b = cc

-- A boot that discards nothing and does not lose the marker leaves the ledger.
pass-keeps :
    (cap backoff_base : ℕ) (ledger : HealLedger) (boot : Boot) (wipe : Wipe)
    → boot.wipe ≡ wipe
    → loses_ledger wipe ≡ false
    → attempts_wipe cap backoff_base ledger boot && empties wipe ≡ false
    → pass cap backoff_base ledger boot ≡ ledger
unfolding pass
pass-keeps cap backoff_base ledger boot wipe e kept h =
    elim (Bool-cases (attempts_wipe cap backoff_base ledger boot)) [
      | inr held ↦ rw (held, pass) refl
      | inl begins ↦
          rw (begins, pass, e) (after_wipe-keeps wipe ledger boot.now_unix (rw begins at h) kept)
    ]

-- However often and whenever the boots come, they discard the datadir at most as often as the
-- budget has attempts left, where the cap is a `u32`, each bumped ledger reaches the next boot, and
-- no wipe fails behind the ledger's marker, which the next boot would miss. A wipe that fails does
-- not count as a discard.
pub wipes_within_budget :
    (cap backoff_base : ℕ) (ledger : HealLedger) (boots : List Boot)
    → cap ≤ u32_max
    → any (λ b. loses_ledger b.wipe) boots ≡ false
    → wipes cap backoff_base ledger boots ≤ cap - ledger.attempts
unfolding wipes bump
wipes_within_budget cap backoff_base ledger [] c safe = omega arith
wipes_within_budget cap backoff_base ledger (boot ∷ rest) c safe =
    let kept : loses_ledger boot.wipe ≡ false = ground arith in
    let safe_rest : any (λ b. loses_ledger b.wipe) rest ≡ false = ground arith in
    elim (Bool-cases (discards cap backoff_base ledger boot)) [
      | inl let_through ↦
          let below = discards_below_cap ledger cap backoff_base boot let_through in
          let later : wipes cap backoff_base (bump ledger boot.now_unix) rest
              ≤ cap - min (ledger.attempts + 1) u32_max =
            wipes_within_budget cap backoff_base (bump ledger boot.now_unix) rest c safe_rest in
          let bumped =
            pass-discards cap backoff_base ledger boot boot.wipe refl
              (unfold discards in let_through) in
          rw (let_through, bumped) (ground arith)
      | inr held ↦
          let same =
            pass-keeps cap backoff_base ledger boot boot.wipe refl kept (unfold discards in held) in
          rw (held, same) (wipes_within_budget cap backoff_base ledger rest c safe_rest)
    ]
