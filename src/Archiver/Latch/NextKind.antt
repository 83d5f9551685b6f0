-- ===== src/Archiver/Latch/NextKind.antt =====
-- mysql-wrapper/src/archiver.rs: which kind a requested full is given.
use mysql_ha.Prelude.{
  ℕ, ◌≡◌, refl, Bool, true, false, Option, none, some, List, [], ◌∷◌, subst, sym,
}
use mysql_ha.Archiver.Latch.{
  LatchState, idle, queued, running, Kind, gap_recovery, PitrStatus, is_state, queue_full_backup,
  begin_requested_full_backup, Phase, dumping, World, Event, ask, request, land, settle, step, run,
  boot,
}
use mysql_ha.Archiver.Latch.Runs.{IsLatched, latch_tracks_run}

-- The kind of the full that the loop would begin for a queued request.
abbrev pub next_kind : PitrStatus → Option Kind
next_kind s = elim (begin_requested_full_backup s) [ none ↦ none | some r ↦ some r.1 ]

-- The shipping loop asks during a dump, which lands and clears the flag; then the endpoint requests.
abbrev pub asked_during : List Event
asked_during = ask ∷ land ∷ settle true ∷ request ∷ []

stale :
    (c a : Bool) (latch : LatchState) (r g : Bool) (l n seen : ℕ)
    → is_state latch running ≡ true
    → c ≡ true
    → a ≡ true
    → g ≡ true
    → let w = run asked_during (record {
      status = record {
        archive_configured = c;
        archiving = a;
        full_backup_state = latch;
        full_backup_gap_recovery = r;
      };
      gap_anchor_pending = g;
      phase = dumping true seen;
      losses = l;
      anchored = n;
    }) in
      (next_kind w.status ≡ some gap_recovery) × (w.gap_anchor_pending ≡ false)
unfolding run step queue_full_backup begin_requested_full_backup
stale true true running true true l n seen h _ _ _ = (refl, refl)
stale true true running false true l n seen h _ _ _ = (refl, refl)
stale true true idle r true l n seen h _ _ _ = cc
stale true true queued r true l n seen h _ _ _ = cc
stale false a latch r g l n seen h p _ _ = cc
stale true false latch r g l n seen h _ p _ = cc
stale true true latch r false l n seen h _ _ p = cc

stale_at :
    (w : World) (seen : ℕ)
    → IsLatched w
    → w.phase ≡ dumping true seen
    → w.status.archive_configured ≡ true
    → w.status.archiving ≡ true
    → w.gap_anchor_pending ≡ true
    → let after = run asked_during w in
      (next_kind after.status ≡ some gap_recovery) × (after.gap_anchor_pending ≡ false)
stale_at w seen latched d c a g =
    let s = w.status in
    let held : is_state s.full_backup_state running ≡ true = rw d at latched in
    let kind =
      stale s.archive_configured s.archiving s.full_backup_state s.full_backup_gap_recovery
        w.gap_anchor_pending w.losses w.anchored seen held c a g in
    subst
      (λ (phase : Phase).
        let after = run asked_during (record w { phase = phase }) in
        (next_kind after.status ≡ some gap_recovery) × (after.gap_anchor_pending ≡ false))
      (sym d) kind

-- When the shipping loop asks for a full while the dump that closes the gap is under way, and that dump
-- lands, the next full that the endpoint requests is begun as a gap recovery, although the flag is
-- clear and no gap is left.
pub request_named_gap_recovery :
    (configured : Bool) (events : List Event) (seen : ℕ)
    → (run events (boot configured)).phase ≡ dumping true seen
    → (run events (boot configured)).status.archive_configured ≡ true
    → (run events (boot configured)).status.archiving ≡ true
    → (run events (boot configured)).gap_anchor_pending ≡ true
    → let after = run asked_during (run events (boot configured)) in
      (next_kind after.status ≡ some gap_recovery) × (after.gap_anchor_pending ≡ false)
request_named_gap_recovery configured events seen d c a g =
    stale_at (run events (boot configured)) seen (latch_tracks_run configured events) d c a g
