-- ===== src/Archiver/Latch/Gap.antt =====
-- mysql-wrapper/src/archiver.rs: the gap-anchor flag, and when a full backup closes the gap.
use mysql_ha.Prelude.{
  ℕ, ◌≡◌, ◌<◌, refl, Bool, true, false, not, ◌&&◌, Option, none, some, List, [], ◌∷◌, arith,
}
use mysql_ha.Archiver.Latch.{
  PitrStatus, begin_requested_full_backup, begin_scheduled_full_backup, Phase, waiting, begun,
  dumping, landed, begin_run, requested_status, World, Event, lose, ask, request, begin_requested,
  begin_scheduled, read_flag, land, give_up, settle, start, demote, restart, step, run, boot,
}

-- What the phase says of the losses recorded: the losses `seen` by a dump that anchors a gap are all of
-- them, and so are those seen by another dump while the flag is clear.
abbrev pub PhaseSays : Bool → ℕ → ℕ → Phase → Type 0
PhaseSays pending losses anchored waiting = Unit
PhaseSays pending losses anchored begun = Unit
PhaseSays pending losses anchored (dumping true seen) = seen ≡ losses
PhaseSays pending losses anchored (dumping false seen) = pending ≡ false → seen ≡ losses
PhaseSays pending losses anchored (landed true seen) = (seen ≡ losses) × (anchored ≡ losses)
PhaseSays pending losses anchored (landed false seen) = pending ≡ false → anchored ≡ losses

-- While the flag is clear, the full that landed last began after every loss.
abbrev pub IsAnchored : World → Type 0
IsAnchored w =
    (w.gap_anchor_pending ≡ false → w.anchored ≡ w.losses)
    × PhaseSays w.gap_anchor_pending w.losses w.anchored w.phase

-- Whether a dump that read the flag as set is under way.
abbrev pub anchors_gap : Phase → Bool
anchors_gap (dumping anchors _) = anchors
anchors_gap (landed anchors _) = anchors
anchors_gap _ = false

abbrev pub is_loss : Event → Bool
is_loss lose = true
is_loss _ = false

-- No loss is recorded while a dump that read the flag as set is under way.
unfoldable pub spares_dumps : List Event → World → Bool
spares_dumps [] w = true
spares_dumps (e ∷ events) w =
    let rest = spares_dumps events (step e w) in not (is_loss e && anchors_gap w.phase) && rest

begin_run-anchored :
    (o : Option PitrStatus) (s : PitrStatus) (g : Bool) (l n : ℕ)
    → (g ≡ false → n ≡ l)
    → IsAnchored (
        begin_run o (record {
          status = s;
          gap_anchor_pending = g;
          phase = waiting;
          losses = l;
          anchored = n;
        }))
begin_run-anchored none s g l n h = (h, tt)
begin_run-anchored (some _) s g l n h = (h, tt)

anchored-step :
    (e : Event) (s : PitrStatus) (g : Bool) (phase : Phase) (l n : ℕ)
    → not (is_loss e && anchors_gap phase) ≡ true
    → (g ≡ false → n ≡ l)
    → PhaseSays g l n phase
    → IsAnchored (
        step e
          (record { status = s; gap_anchor_pending = g; phase = phase; losses = l; anchored = n }))
unfolding step
anchored-step lose s g waiting l n q h k = (λ z. cc, tt)
anchored-step lose s g begun l n q h k = (λ z. cc, tt)
anchored-step lose s g (dumping true m) l n q h k = cc
anchored-step lose s g (dumping false m) l n q h k = (λ z. cc, λ z. cc)
anchored-step lose s g (landed true m) l n q h k = cc
anchored-step lose s g (landed false m) l n q h k = (λ z. cc, λ z. cc)
anchored-step ask s false phase l n q h k = (h, k)
anchored-step ask s true phase l n q h k = (h, k)
anchored-step request s g phase l n q h k = (h, k)
anchored-step begin_requested s g waiting l n q h k =
    begin_run-anchored (requested_status (begin_requested_full_backup s)) s g l n h
anchored-step begin_requested s g begun l n q h k = (h, k)
anchored-step begin_requested s g (dumping b m) l n q h k = (h, k)
anchored-step begin_requested s g (landed b m) l n q h k = (h, k)
anchored-step begin_scheduled s g waiting l n q h k =
    begin_run-anchored (begin_scheduled_full_backup s) s g l n h
anchored-step begin_scheduled s g begun l n q h k = (h, k)
anchored-step begin_scheduled s g (dumping b m) l n q h k = (h, k)
anchored-step begin_scheduled s g (landed b m) l n q h k = (h, k)
anchored-step read_flag s g waiting l n q h k = (h, k)
anchored-step read_flag s true begun l n q h k = (h, refl)
anchored-step read_flag s false begun l n q h k = (h, λ z. refl)
anchored-step read_flag s g (dumping b m) l n q h k = (h, k)
anchored-step read_flag s g (landed b m) l n q h k = (h, k)
anchored-step land s g waiting l n q h k = (h, k)
anchored-step land s g begun l n q h k = (h, k)
anchored-step land s g (dumping true m) l n q h k = (λ z. k, (k, k))
anchored-step land s g (dumping false m) l n q h k = (k, k)
anchored-step land s g (landed b m) l n q h k = (h, k)
anchored-step give_up s g waiting l n q h k = (h, k)
anchored-step give_up s g begun l n q h k = (h, k)
anchored-step give_up s g (dumping b m) l n q h k = (h, tt)
anchored-step give_up s g (landed b m) l n q h k = (h, k)
anchored-step (settle z) s g waiting l n q h k = (h, k)
anchored-step (settle z) s g begun l n q h k = (h, k)
anchored-step (settle z) s g (dumping b m) l n q h k = (h, k)
anchored-step (settle z) s g (landed true m) l n q h k = (λ _. k.1, tt)
anchored-step (settle z) s g (landed false m) l n q h k = (λ c. ground arith, tt)
anchored-step start s g phase l n q h k = (h, k)
anchored-step demote s g phase l n q h k = (h, tt)
anchored-step restart s g phase l n q h k = (h, tt)

step-IsAnchored :
    (e : Event) (w : World)
    → not (is_loss e && anchors_gap w.phase) ≡ true
    → IsAnchored w
    → IsAnchored (step e w)
step-IsAnchored e w q (h, k) =
    anchored-step e w.status w.gap_anchor_pending w.phase w.losses w.anchored q h k

run-IsAnchored :
    (events : List Event) (w : World)
    → spares_dumps events w ≡ true
    → IsAnchored w
    → IsAnchored (run events w)
unfolding run spares_dumps
run-IsAnchored [] w q h = h
run-IsAnchored (e ∷ events) w q h =
    run-IsAnchored events (step e w) (ground arith) (step-IsAnchored e w (ground arith) h)

-- As long as no binlog is lost while a dump is under way that read the gap flag as set: whenever the
-- flag is clear, the full that landed last began after every loss recorded, whatever was requested,
-- begun, given up, aborted or restarted before.
pub flag_clear_anchored :
    (configured : Bool) (events : List Event)
    → spares_dumps events (boot configured) ≡ true
    → (run events (boot configured)).gap_anchor_pending ≡ false
    → (run events (boot configured)).anchored ≡ (run events (boot configured)).losses
flag_clear_anchored configured events q =
    (run-IsAnchored events (boot configured) q (λ _. refl, tt)).0

abbrev pub forgetting : List Event
forgetting = lose ∷ land ∷ settle true ∷ []

forgets :
    (s : PitrStatus) (g : Bool) (l n : ℕ)
    → let w = run forgetting (record {
      status = s;
      gap_anchor_pending = g;
      phase = dumping true l;
      losses = l;
      anchored = n;
    }) in
      (w.gap_anchor_pending ≡ false) × (w.anchored < w.losses)
unfolding run step
forgets s g l n = (refl, omega arith)

second-loss :
    (s : PitrStatus) (g : Bool) (phase : Phase) (l n seen : ℕ)
    → PhaseSays g l n phase
    → phase ≡ dumping true seen
    → let w =
        run forgetting (record {
          status = s;
          gap_anchor_pending = g;
          phase = phase;
          losses = l;
          anchored = n;
        }) in
      (w.gap_anchor_pending ≡ false) × (w.anchored < w.losses)
second-loss s g waiting l n seen k e = cc
second-loss s g begun l n seen k e = cc
second-loss s g (dumping false m) l n seen k e = cc
second-loss s g (landed b m) l n seen k e = cc
second-loss s g (dumping true m) l n seen k e = rw k (forgets s g l n)

-- Where no binlog has been lost before while a dump was under way that had read the flag as set, and
-- such a dump is under way: if a binlog is lost now, and the next things to happen are that the dump
-- lands and that the write of the flag succeeds, the flag is clear although the full began before the
-- last loss.
pub second_loss_forgotten :
    (configured : Bool) (events : List Event) (seen : ℕ)
    → spares_dumps events (boot configured) ≡ true
    → (run events (boot configured)).phase ≡ dumping true seen
    → let w = run forgetting (run events (boot configured)) in
      (w.gap_anchor_pending ≡ false) × (w.anchored < w.losses)
second_loss_forgotten configured events seen q e =
    let w = run events (boot configured) in
    let (_, says) = run-IsAnchored events (boot configured) q (λ _. refl, tt) in
    second-loss w.status w.gap_anchor_pending w.phase w.losses w.anchored seen says e
