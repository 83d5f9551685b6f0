-- ===== src/Health/Routing.antt =====
-- mysql-wrapper/src/health_server.rs: which nodes HAProxy sends writes to.
use mysql_ha.Prelude.{
  ◌≡◌, refl, ◌≢◌, ◌↔◌, ◌⊎◌, inl, inr, Bool, true, false, Option, none, some, List, arith, Str,
}
use mysql_ha.Gr.State.{MemberRow}
use mysql_ha.Gr.Majority.{role_is_writable_primary}
use mysql_ha.Gr.Majority.Partition.{SplitViews, SplitViews-apart}
use mysql_ha.Health.{
  RoleVerdict, primary, fenced, replica, unavailable, role_verdict, status_ok, role_reply, AppState,
  verdict_of, role,
}

-- A standalone node whose mysqld answers, or a member that reads itself as its group's writable primary
-- and is not fenced.
abbrev pub ServesWrites : AppState → Type 0
ServesWrites s =
    ((s.standalone ≡ true) × (s.ping_succeeds ≡ true))
    ⊎ ((s.standalone ≡ false)
        × (s.membership_fenced ≡ false)
        × ((self_uuid : Str) × (members : List MemberRow) × (s.server_uuid ≡ some self_uuid)
            × (s.group_members ≡ some members)
            × (role_is_writable_primary members self_uuid ≡ true)))

reply_ok : (v : RoleVerdict) → ((role_reply v).0 ≡ status_ok) → v ≡ primary
unfolding role_reply
reply_ok primary h = refl
reply_ok (fenced _) h = absurd (omega (arith, h))
reply_ok (replica _) h = absurd (omega (arith, h))
reply_ok (unavailable _) h = absurd (omega (arith, h))

role_verdict-primary :
    (members : List MemberRow) (self_uuid : Str) (membership_fenced : Bool)
    → role_verdict members self_uuid membership_fenced ≡ primary
    → (role_is_writable_primary members self_uuid ≡ true) × (membership_fenced ≡ false)
unfolding role_verdict
role_verdict-primary members self_uuid membership_fenced h = ground arith

verdict-serves :
    (standalone ping_succeeds : Bool) (server_uuid : Option Str)
    (group_members : Option (List MemberRow)) (membership_fenced : Bool)
    → let s : AppState = record {
      standalone = standalone;
      ping_succeeds = ping_succeeds;
      server_uuid = server_uuid;
      group_members = group_members;
      membership_fenced = membership_fenced;
    } in
      (role s).0 ≡ status_ok → ServesWrites s
unfolding role verdict_of
verdict-serves true true u m f h = inl (refl, refl)
verdict-serves true false u m f h = cc (reply_ok (unavailable _) h)
verdict-serves false p none m f h = cc (reply_ok (unavailable _) h)
verdict-serves false p (some u) none f h = cc (reply_ok (unavailable _) h)
verdict-serves false p (some u) (some m) f h =
    let (writable, clear) = role_verdict-primary m u f (reply_ok _ h) in
    inr (refl, clear, (u, m, refl, refl, writable))

serves-verdict : (s : AppState) → ServesWrites s → (role s).0 ≡ status_ok
unfolding role verdict_of role_verdict role_reply
serves-verdict s (inl (alone, ping)) = rw (alone, ping) refl
serves-verdict s (inr (grouped, clear, (u, m, uuid, members, writable))) =
    rw (grouped, uuid, members, writable, clear) refl

-- `/role` answers 200, the only status that HAProxy routes to, exactly when the node stands alone and
-- its mysqld answers, or both readings of the group succeed, they make it the writable primary, and
-- the membership fence is down.
pub role_ok_iff : (s : AppState) → ((role s).0 ≡ status_ok) ↔ ServesWrites s
role_ok_iff s = (
  λ h.
      verdict-serves s.standalone s.ping_succeeds s.server_uuid s.group_members s.membership_fenced
        h,
  serves-verdict s,
)

-- Two members, none of them a standalone node, that read views of the same members, each in an order
-- of its own, in which no member is reachable in both, do not both answer 200 at `/role`.
pub role_ok_partition :
    (s t : AppState) (left right : List MemberRow)
    → s.standalone ≡ false
    → t.standalone ≡ false
    → s.group_members ≡ some left
    → t.group_members ≡ some right
    → SplitViews left right
    → (role s).0 ≡ status_ok
    → (role t).0 ≢ status_ok
role_ok_partition s t left right gs gt ms mt apart hs ht = elim ((role_ok_iff s).0 hs) [
  | inl (alone, _) ↦ cc
  | inr (_, _, (u, l, _, el, wl)) ↦ elim ((role_ok_iff t).0 ht) [
    | inl (alone, _) ↦ cc
    | inr (_, _, (v, r, _, er, wr)) ↦
        let same : l ≡ left = cc in
        let same2 : r ≡ right = cc in
        SplitViews-apart left right u v apart (rw same at wl) (rw same2 at wr)
  ]
]
