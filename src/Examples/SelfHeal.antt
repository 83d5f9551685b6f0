-- ===== src/Examples/SelfHeal.antt =====
-- mysql-wrapper/src/self_heal.rs at concrete inputs: gaps, and passes against a cap.
use mysql_ha.Prelude.{ℕ, List, Bool, true, false, ◌≤◌, ◌≡◌, refl, [], ◌∷◌, arith}
use mysql_ha.SelfHeal.{
  emptied, failed_past_ledger, attempts_wipe, Boot, discards, HealLedger, bump, backoff_gap_seconds,
  heal_gate, pass, wipes, wipes_within_budget, u64_max,
}

abbrev no_ledger : HealLedger
no_ledger = record { attempts = 0; last_unix = 0 }

third_gap : backoff_gap_seconds 60 3 ≡ 240
unfolding backoff_gap_seconds
third_gap = refl

saturated_gap : backoff_gap_seconds u64_max 5 ≡ u64_max
unfolding backoff_gap_seconds
saturated_gap = refl

abbrev boot_at : ℕ → Bool → Boot
boot_at now_unix donor_confirmed = record {
  now_unix = now_unix;
  donor_confirmed = donor_confirmed;
  wipe = emptied;
}

abbrev boots : List Boot
boots =
    boot_at 900 false
    ∷ boot_at 1000 true
    ∷ boot_at 1030 true
    ∷ boot_at 1060 true
    ∷ boot_at 9000 true
    ∷ []

-- The first boot finds no donor, the third is inside the gap, and the cap of two stops the last.
two_of_five : wipes 2 60 no_ledger boots ≡ 2
unfolding wipes pass discards attempts_wipe heal_gate backoff_gap_seconds bump
two_of_five = refl

wipes_within_budget_example : wipes 2 60 no_ledger boots ≤ 2
wipes_within_budget_example = wipes_within_budget 2 60 no_ledger boots (omega arith) refl

-- A wipe that fails behind the marker gives the budget back.
budget_returns :
    pass 2 60
      (record { attempts = 1; last_unix = 1000 })
      (record (boot_at 9000 true) { wipe = failed_past_ledger })
    ≡ no_ledger
unfolding pass attempts_wipe heal_gate backoff_gap_seconds
budget_returns = refl
