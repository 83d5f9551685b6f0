-- ===== src/Gr/Watch/Fence.antt =====
-- mysql-wrapper/src/gr.rs: the write fence of `majority_watch`.
use mysql_ha.Prelude.{
  ℕ, ◌*◌, ◌≤◌, ◌<◌, ◌≡◌, refl, sym, ap, ◌∙◌, subst, inl, inr, Bool, true, false, ◌&&◌, Option, none,
  some, List, [], ◌∷◌, map, arith, leb, is_none, Bool-cases, any, filter, In, In-append_left,
  In-append_right, In-cons, Str, str_eq, eq_ignore_ascii_case,
}
use mysql_ha.Gr.State.{MemberRow, usize_max}
use mysql_ha.Gr.Gone.{
  NameVerdict, exists_or_unknown, GoneTracker, observe, observe_reachable, is_waived, remove, get,
}
use mysql_ha.Gr.Majority.{membership_fence_wanted}
use mysql_ha.Gr.Watch.Turns.{recover-cases}
use mysql_ha.Gr.Watch.{
  WatchConfig, configured, Watch, Round, Action, Turn, is_online, is_self, online_count, is_armed,
  probe_seeds, effective_members, raise_high_water, apply_fence, recover, then_recover, online_turn,
  turn_on, turn, watch_after, set_super_read_only,
}

get-remove_self : (since : List (Str × ℕ)) (host : Str) → get (remove since host) host ≡ none
unfolding get remove
get-remove_self [] host = refl
get-remove_self ((h, t) ∷ rest) host = elim (Bool-cases (str_eq h host)) [
  | inl same ↦ rw same (get-remove_self rest host)
  | inr other ↦ rw (other) (rw other (get-remove_self rest host))
]

-- A name that the resolver does not call gone is not waived.
not_waived :
    (tracker : GoneTracker) (host : Str) (now dwell : ℕ)
    → is_waived (observe tracker host exists_or_unknown now) host now dwell ≡ false
unfolding is_waived observe
not_waived tracker host now dwell = rw (get-remove_self tracker.gone_since host, is_waived)

probe_seeds-effective :
    (online_hosts seeds : List Str) (name_of : Str → NameVerdict) (now dwell : ℕ)
    (tracker : GoneTracker) (effective : ℕ)
    → ((seed : Str) → In seed seeds → name_of seed ≡ exists_or_unknown)
    → (probe_seeds online_hosts seeds name_of now dwell tracker effective).1 ≡ effective
unfolding probe_seeds
probe_seeds-effective online_hosts [] name_of now dwell tracker effective h = refl
probe_seeds-effective online_hosts (seed ∷ seeds) name_of now dwell tracker effective h =
    let e = h seed In.here in
    let n = not_waived tracker seed now dwell in
    elim (Bool-cases (any (λ x. eq_ignore_ascii_case x seed) online_hosts)) [
      | inl online ↦
          rw (online, probe_seeds)
            (probe_seeds-effective online_hosts seeds name_of now dwell
              (observe_reachable tracker seed) effective (λ s m. h s (In.there m)))
      | inr offline ↦
          rw (offline, probe_seeds, e, n)
            (probe_seeds-effective online_hosts seeds name_of now dwell
              (observe tracker seed exists_or_unknown now) effective (λ s m. h s (In.there m)))
    ]

recover-keeps :
    (w : Watch) (r : Round) (members : List MemberRow)
    → ((recover w r members).watch.high_water ≡ w.high_water)
      × ((recover w r members).watch.membership_fenced ≡ w.membership_fenced)
recover-keeps w r members = elim (recover-cases w r members) [
  | inl e ↦ rw e (refl, refl)
  | inr (inl (f, e)) ↦ rw e (refl, refl)
  | inr (inr (f, e, on)) ↦ rw e (refl, refl)
]

then_recover-keeps :
    (t : Turn) (r : Round) (members : List MemberRow)
    → ((then_recover t r members).watch.high_water ≡ t.watch.high_water)
      × ((then_recover t r members).watch.membership_fenced ≡ t.watch.membership_fenced)
then_recover-keeps t r members = elim (Bool-cases t.goes_on) [
  | inl goes ↦ rw goes (recover-keeps t.watch r members)
  | inr stops ↦ rw stops (refl, refl)
]

then_recover-In :
    (t : Turn) (r : Round) (members : List MemberRow) (a : Action)
    → In a t.actions
    → In a (then_recover t r members).actions
then_recover-In t r members a m = elim (Bool-cases t.goes_on) [
  | inl goes ↦ rw goes (In-append_left t.actions _ m)
  | inr stops ↦ rw stops m
]

apply_fence-high_water :
    (w : Watch) (r : Round) (members : List MemberRow) (self_uuid : Str) (want_fence : Bool)
    → (apply_fence w r members self_uuid want_fence).watch.high_water ≡ w.high_water
unfolding apply_fence
apply_fence-high_water w r members self_uuid want_fence = ground arith

raise_high_water-le :
    (w : Watch) (online : ℕ)
    → (w.high_water ≤ (raise_high_water w online).watch.high_water)
      × (online ≤ (raise_high_water w online).watch.high_water)
unfolding raise_high_water
raise_high_water-le w online = ground arith

-- The round in which the member sees itself ONLINE among these members.
abbrev pub SeesItself : Round → List MemberRow → Type 0
SeesItself r members =
    (r.members ≡ some members)
    × (self_uuid : Str) × (r.self_uuid ≡ some self_uuid)
    × (any (λ m. is_self self_uuid m && is_online m) members ≡ true)

turn-online_turn :
    (c : WatchConfig) (w : Watch) (r : Round) (members : List MemberRow) (s : SeesItself r members)
    → turn c w r ≡ online_turn c w r members s.1
unfolding turn turn_on
turn-online_turn c w r members (e, self_uuid, n, online) =
    ap (λ o. turn_on c w r o r.self_uuid) e
    ∙ ap (λ o. turn_on c w r (some members) o) n
    ∙ rw online refl

online_turn-high_water :
    (c : WatchConfig) (w : Watch) (r : Round) (members : List MemberRow) (self_uuid : Str)
    → (online_turn c w r members self_uuid).watch.high_water
      ≡ (raise_high_water w (online_count members)).watch.high_water
unfolding online_turn
online_turn-high_water c w r members self_uuid =
    (then_recover-keeps _ r members).0 ∙ apply_fence-high_water _ r members self_uuid _

turn_on-high_water-le :
    (c : WatchConfig) (w : Watch) (r : Round) (members : Option (List MemberRow))
    (self_uuid : Option Str)
    → w.high_water ≤ (turn_on c w r members self_uuid).watch.high_water
unfolding turn_on
turn_on-high_water-le c w r none self_uuid = omega arith
turn_on-high_water-le c w r (some members) none = omega arith
turn_on-high_water-le c w r (some members) (some self_uuid) =
    elim (Bool-cases (any (λ m. is_self self_uuid m && is_online m) members)) [
      | inr absent ↦ rw absent (omega arith)
      | inl online ↦
          let le = (raise_high_water-le w (online_count members)).0 in
          rw (online, online_turn-high_water c w r members self_uuid) le
    ]

apply_fence_imposes :
    (w : Watch) (r : Round) (members : List MemberRow) (self_uuid : Str) (want_fence : Bool)
    → want_fence ≡ true
    → ((apply_fence w r members self_uuid want_fence).watch.membership_fenced ≡ true)
      × In set_super_read_only (apply_fence w r members self_uuid want_fence).actions
unfolding apply_fence
apply_fence_imposes w r members self_uuid true e = (refl, In.here)
apply_fence_imposes w r members self_uuid false e = cc

effective_members_all :
    (c : WatchConfig) (w : Watch) (r : Round) (members : List MemberRow)
    → ((seed : Str) → In seed c.seeds → r.name_of seed ≡ exists_or_unknown)
    → (effective_members c w r members).1 ≡ configured c
unfolding effective_members
effective_members_all c w r members h =
    elim (Bool-cases (is_armed c w.high_water && leb (online_count members * 2) (configured c))) [
      | inl e ↦ rw e (
          probe_seeds-effective (map (λ m. m.host) (filter is_online members)) c.seeds r.name_of
            r.now c.gone_dwell w.seed_gone (configured c) h)
      | inr e ↦ rw e refl
    ]

fence_wanted :
    (online effective all_declared : ℕ) (armed : Bool)
    → armed ≡ true
    → effective ≡ all_declared
    → online * 2 ≤ all_declared
    → membership_fence_wanted online effective armed ≡ true
unfolding membership_fence_wanted
fence_wanted online effective all_declared armed a e few = ground arith

module _ (c : WatchConfig) (w : Watch) where
  -- The high-water mark never falls, so it is at least each count that the member has seen.
  watch_after-high_water :
      (history : List Round) (r : Round) (members : List MemberRow)
      → In r history
      → SeesItself r members
      → online_count members ≤ (watch_after c w history).high_water
  unfolding watch_after
  watch_after-high_water [] r members m s = elim m [ ]
  watch_after-high_water (x ∷ earlier) r members m s = elim (In-cons m) [
    | inl own ↦
        let seen : SeesItself x members = subst (λ (y : Round). SeesItself y members) own s in
        let le = (raise_high_water-le (watch_after c w earlier) (online_count members)).1 in
        subst (λ (t : Turn). online_count members ≤ t.watch.high_water)
          (sym (turn-online_turn c (watch_after c w earlier) x members seen))
          (rw (online_turn-high_water c (watch_after c w earlier) x members seen.1) le)
    | inr later ↦
        let before = watch_after-high_water earlier r members later s in
        let grows : (watch_after c w earlier).high_water
            ≤ (turn c (watch_after c w earlier) x).watch.high_water =
          unfold turn in
          turn_on-high_water-le c (watch_after c w earlier) x x.members x.self_uuid in
        omega arith
  ]

  is_armed_above :
      (high_water : ℕ)
      → configured c < usize_max
      → configured c < high_water * 2
      → is_armed c high_water ≡ true
  unfolding is_armed
  is_armed_above high_water fits above = elim (Bool-cases (is_none c.marker)) [
    | inl e ↦ rw e refl
    | inr e ↦ ground arith
  ]

  online_turn-Fenced :
      (r : Round) (members : List MemberRow) (self_uuid : Str)
      → configured c < usize_max
      → configured c < w.high_water * 2
      → online_count members * 2 ≤ configured c
      → ((seed : Str) → In seed c.seeds → r.name_of seed ≡ exists_or_unknown)
      → ((online_turn c w r members self_uuid).watch.membership_fenced ≡ true)
        × In set_super_read_only (online_turn c w r members self_uuid).actions
  unfolding online_turn
  online_turn-Fenced r members self_uuid fits above few there_ =
      let raised = (raise_high_water w (online_count members)).watch in
      let le = (raise_high_water-le w (online_count members)).0 in
      let armed = is_armed_above raised.high_water fits (omega arith) in
      let all_count = effective_members_all c raised r members there_ in
      let want =
        fence_wanted (online_count members) (effective_members c raised r members).1 (configured c)
          (is_armed c raised.high_water) armed all_count few in
      let (shut, imposed) =
        apply_fence_imposes (record raised { seed_gone = (effective_members c raised r members).0 })
          r members self_uuid
          (membership_fence_wanted (online_count members) (effective_members c raised r members).1
            (is_armed c raised.high_water))
          want in
      (
        (then_recover-keeps _ r members).1 ∙ shut,
        then_recover-In _ r members set_super_read_only (In-append_right _ _ imposed),
      )

-- Once the member has seen a majority of the declared members ONLINE, every later round in which
-- it is ONLINE itself, sees no such majority, and the resolver calls no declared name gone ends
-- with the write fence engaged, and imposes super_read_only.
pub fence_after_majority :
    (c : WatchConfig) (w : Watch) (history : List Round) (r reached : Round)
    (members reached_members : List MemberRow)
    → configured c < usize_max
    → In reached history
    → SeesItself reached reached_members
    → configured c < online_count reached_members * 2
    → SeesItself r members
    → online_count members * 2 ≤ configured c
    → ((seed : Str) → In seed c.seeds → r.name_of seed ≡ exists_or_unknown)
    → ((turn c (watch_after c w history) r).watch.membership_fenced ≡ true)
      × In set_super_read_only (turn c (watch_after c w history) r).actions
fence_after_majority c w history r reached members reached_members fits m s above seen few names =
    let high = watch_after-high_water c w history reached reached_members m s in
    let now = watch_after c w history in
    subst (λ (t : Turn). (t.watch.membership_fenced ≡ true) × In set_super_read_only t.actions)
      (sym (turn-online_turn c now r members seen))
      (online_turn-Fenced c now r members seen.1 fits (omega arith) few names)
