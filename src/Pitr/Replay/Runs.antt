-- ===== src/Pitr/Replay/Runs.antt =====
-- mysql-wrapper/src/pitr.rs: the runs past a gap (`binlog_runs_past_gap`) are the files from the gap
-- on, in order, cut at each hole.
use mysql_ha.Prelude.{
  ◌≡◌, refl, sym, ap, subst, ◌∙◌, ◌≢◌, inl, inr, false, some, List, [], ◌∷◌, ◌++◌, append_assoc,
  append-nil, arith, Bool-cases, first, last, In, All, All-append, Str, sort_by, sort_by-In,
}
use mathlib.Core.List.{flatten}
use mysql_ha.Pitr.Binlog.{binlog_seq, binlog_name_cmp, HasSeq}
use mysql_ha.Pitr.Replay.{from_start, is_hole, runs_loop, binlog_runs_past_gap, push_last, no_runs}
use mysql_ha.Pitr.Replay.Run.{
  Follows, Chain, Follows-of_no_hole, not_Follows_of_hole, last-append_one, from_start-some,
  tail-HasSeq, from_start_total,
}

-- A run: at least one file, each following the one before it.
abbrev pub IsRun : List Str → Type 0
IsRun run = (run ≢ []) × Chain run

-- Between two runs there is a hole.
abbrev pub Parted : List Str → List Str → Type 0
Parted run next = (l f : Str) → last run ≡ some l → first next ≡ some f → ¬ Follows l f

abbrev pub AllParted : List (List Str) → Type 0
AllParted [] = Unit
AllParted (run ∷ []) = Unit
AllParted (run ∷ next ∷ rest) = Parted run next × AllParted (next ∷ rest)

push_last-append :
    (done : List (List Str)) (run : List Str) (name : Str)
    → push_last (done ++ (run ∷ [])) name ≡ done ++ ((run ++ (name ∷ [])) ∷ [])
unfolding push_last
push_last-append [] run name = refl
push_last-append (r ∷ []) run name = refl
push_last-append (r ∷ s ∷ done) run name = ap (λ t. r ∷ t) (push_last-append (s ∷ done) run name)

no_runs-append : (done : List (List Str)) (run : List Str) → no_runs (done ++ (run ∷ [])) ≡ false
unfolding no_runs
no_runs-append [] run = refl
no_runs-append (r ∷ done) run = refl

flatten_one :
    (done : List (List Str)) (run : List Str) → flatten (done ++ (run ∷ [])) ≡ flatten done ++ run
unfolding flatten
flatten_one [] run = append-nil run
flatten_one (r ∷ done) run =
    ap (λ t. r ++ t) (flatten_one done run) ∙ sym (append_assoc r (flatten done) run)

Chain-append_one :
    (run : List Str) (l name : Str)
    → last run ≡ some l
    → Chain run
    → Follows l name
    → Chain (run ++ (name ∷ []))
Chain-append_one [] l name h c f = tt
Chain-append_one (x ∷ []) l name h c f =
    let same : x ≡ l = ground arith in (subst (λ z. Follows z name) (sym same) f, tt)
Chain-append_one (x ∷ y ∷ r) l name h c f = (c.0, Chain-append_one (y ∷ r) l name h c.1 f)

AllParted-snoc :
    (done : List (List Str)) (run next : List Str)
    → AllParted (done ++ (run ∷ []))
    → Parted run next
    → AllParted ((done ++ (run ∷ [])) ++ (next ∷ []))
AllParted-snoc [] run next a p = (p, tt)
AllParted-snoc (r ∷ []) run next a p = (a.0, (p, tt))
AllParted-snoc (r ∷ s ∷ done) run next a p = (a.0, AllParted-snoc (s ∷ done) run next a.1 p)

AllParted-grow :
    (done : List (List Str)) (run more : List Str)
    → first run ≡ first more
    → AllParted (done ++ (run ∷ []))
    → AllParted (done ++ (more ∷ []))
AllParted-grow [] run more e a = tt
AllParted-grow (r ∷ []) run more e a = (λ l f p q. a.0 l f p (e ∙ q), tt)
AllParted-grow (r ∷ s ∷ done) run more e a = (a.0, AllParted-grow (s ∷ done) run more e a.1)

first-append : (run : List Str) (name : Str) → run ≢ [] → first run ≡ first (run ++ (name ∷ []))
first-append [] name h = absurd (h refl)
first-append (x ∷ run) name h = refl

append_one-ne-nil : (run : List Str) (name : Str) → run ++ (name ∷ []) ≢ []
append_one-ne-nil [] name h = cc
append_one-ne-nil (x ∷ run) name h = cc

last-ne-nil : (run : List Str) {l : Str} → last run ≡ some l → run ≢ []
last-ne-nil [] h e = cc
last-ne-nil (x ∷ run) h e = cc

abbrev Cuts : List Str → List (List Str) → Type 0
Cuts files out = (flatten out ≡ files) × All IsRun out × AllParted out

All-last :
    (done : List (List Str)) (run : List Str)
    → All IsRun (done ++ (run ∷ []))
    → All IsRun done × IsRun run
All-last [] run h = (tt, h.0)
All-last (r ∷ done) run h = let (a, b) = All-last done run h.1 in ((h.0, a), b)

runs_loop-Cuts :
    (done : List (List Str)) (run : List Str) (l : Str) (files : List Str)
    → last run ≡ some l
    → HasSeq l
    → All HasSeq files
    → All IsRun (done ++ (run ∷ []))
    → AllParted (done ++ (run ∷ []))
    → Cuts
        (flatten (done ++ (run ∷ [])) ++ files)
        (runs_loop (done ++ (run ∷ [])) (binlog_seq l) files)
unfolding runs_loop
runs_loop-Cuts done run l [] h hl seqs runs parted = (sym (append-nil _), runs, parted)
runs_loop-Cuts done run l (name ∷ files) h hl seqs runs parted =
    elim (Bool-cases (is_hole (binlog_seq l) (binlog_seq name))) [
      | inl hole ↦
          let cut : Parted run (name ∷ []) = λ a b p q f.
            let last_one : a ≡ l = ground arith in
            let first_one : b ≡ name = ground arith in
            not_Follows_of_hole l name hole
              (subst (λ z. Follows l z) first_one (subst (λ z. Follows z b) last_one f)) in
          let next =
            runs_loop-Cuts (done ++ (run ∷ [])) (name ∷ []) name files refl seqs.0 seqs.1
              (All-append IsRun (done ++ (run ∷ [])) _ runs (((λ e. cc), tt), tt))
              (AllParted-snoc done run (name ∷ []) parted cut) in
          rw (hole) (
            next.0
                ∙ ap (λ t. t ++ files) (flatten_one (done ++ (run ∷ [])) (name ∷ []))
                ∙ append_assoc _ (name ∷ []) files,
            next.1,
            next.2,
          )
      | inr joined ↦
          let grown = run ++ (name ∷ []) in
          let (early, (some_file, chain)) = All-last done run runs in
          let next =
            runs_loop-Cuts done grown name files (last-append_one run name) seqs.0 seqs.1
              (All-append IsRun done _ early (
                (
                  append_one-ne-nil run name,
                  Chain-append_one run l name h chain (Follows-of_no_hole l name hl seqs.0 joined),
                ),
                tt,
              ))
              (AllParted-grow done run grown (first-append run name some_file) parted) in
          rw (joined, no_runs-append done run, push_last-append done run name)
            (
              next.0
                  ∙ ap (λ t. t ++ files)
                      (flatten_one done grown
                        ∙ sym (append_assoc (flatten done) run (name ∷ []))
                        ∙ ap (λ t. t ++ (name ∷ [])) (sym (flatten_one done run)))
                  ∙ append_assoc _ (name ∷ []) files,
              next.1,
              next.2,
            )
    ]

binlog_runs_past_gap_found :
    (files : List Str) (next_present : Str) (r : List Str)
    → from_start next_present (sort_by binlog_name_cmp files) ≡ some (next_present ∷ r)
    → binlog_runs_past_gap files next_present
      ≡ runs_loop ((next_present ∷ []) ∷ []) (binlog_seq next_present) r
unfolding binlog_runs_past_gap
binlog_runs_past_gap_found files next_present r e = rw (e, binlog_runs_past_gap)

-- Where the file past the gap is listed and each of the names carries a sequence number, the runs
-- put together are the sorted listing from that file on, no run is empty, in a run each file carries
-- the number after that of the file before it, and the first file of a run does not carry the number
-- after that of the last file of the run before it.
pub binlog_runs_past_gap-Cuts :
    (files : List Str) (next_present : Str)
    → All HasSeq files
    → In next_present files
    → let out = binlog_runs_past_gap files next_present in
      (pre : List Str) × (r : List Str) × (sort_by binlog_name_cmp files
        ≡ pre ++ (next_present ∷ r))
      × (flatten out ≡ next_present ∷ r)
      × All IsRun out
      × AllParted out
unfolding flatten
binlog_runs_past_gap-Cuts files next_present seqs m =
    let sorted = sort_by binlog_name_cmp files in
    let (tail, e) = from_start_total next_present sorted (sort_by-In binlog_name_cmp files m) in
    let (pre, r, p, q) = from_start-some next_present sorted {tail = tail} e in
    let (first_seq, rest_seqs) =
      tail-HasSeq files pre (next_present ∷ r) seqs (p ∙ ap (λ t. pre ++ t) q) in
    let (flat, runs, parted) =
      runs_loop-Cuts [] (next_present ∷ []) next_present r refl first_seq rest_seqs
        (((λ z. cc), tt), tt) tt in
    rw (binlog_runs_past_gap_found files next_present r (e ∙ ap some q))
      (pre, r, p ∙ ap (λ t. pre ++ t) q, flat, runs, parted)
