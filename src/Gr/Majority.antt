-- ===== src/Gr/Majority.antt =====
-- mysql-wrapper/src/gr.rs and sql.rs: when a member may accept writes
-- (`role_is_writable_primary`), when the membership fence stops them (`membership_fence_wanted`),
-- and when the survivor of a lost majority re-forms the group
-- (`majority_loss_recovery_verdict`). A reason to hold is a value in place of the source's text.
pub mod Departed
pub mod Partition
use mysql_ha.Prelude.{
  ℕ, ◌*◌, max, Bool, false, not, ◌&&◌, Option, none, some, List, [], ◌∷◌, ltb, leb, ◌==◌,
  if◌then◌else◌, length, find, filter, Str, codes, str_eq, eq_ignore_ascii_case, is_str,
}
use mysql_ha.Gr.State.{GrState, PeerAnswer, state, not_ready, unreachable, Answers, MemberRow}

pub data HoldReason : Type 0 where
  shared_view : ℕ → HoldReason
  identity_unreadable : HoldReason
  active_group other_identity peer_not_ready not_answering : Str → HoldReason

pub data MajorityVerdict : Type 0 where
  healthy force : MajorityVerdict
  hold : HoldReason → MajorityVerdict

-- `m.state != "UNREACHABLE"`.
abbrev pub is_reachable : MemberRow → Bool
is_reachable m = not (str_eq m.state (codes "UNREACHABLE"))

abbrev pub reachable_count : List MemberRow → ℕ
reachable_count members = length (filter is_reachable members)

-- `answers.iter().find(|(host, _)| *host == member.host).map(|(_, a)| a)`.
abbrev pub answer_of : Answers → Str → Option PeerAnswer
answer_of answers host = elim (find (λ a. str_eq a.0 host) answers) [
  | none ↦ none
  | some (h, a) ↦ some a
]

-- The guard of the first arm: a departed member in the middle of a join to this group.
abbrev pub is_rejoining : Str → GrState → Bool
is_rejoining group_name s =
    s.group_active
    && is_str s.member_state (codes "RECOVERING")
    && leb s.members_total 1
    && is_str s.group_name group_name

-- One turn of the loop: the reason to hold, or nothing where the member is provably departed.
unfoldable pub blocked_by : Str → Str → Option PeerAnswer → Option HoldReason
blocked_by group_name host (some (PeerAnswer.state s)) =
    if is_rejoining group_name s
    then none
    else if s.group_active
    then some (active_group host)
    else if is_str s.group_name group_name
    then none
    else some (other_identity host)
blocked_by group_name host (some not_ready) = some (peer_not_ready host)
blocked_by group_name host (some unreachable) = some (not_answering host)
blocked_by group_name host none = some (not_answering host)

-- The loop over the unreachable members.
unfoldable pub departures : Str → Answers → List MemberRow → MajorityVerdict
departures group_name answers [] = force
departures group_name answers (m ∷ ms) =
    let later = departures group_name answers ms in
    if is_reachable m
    then later
    else elim (blocked_by group_name m.host (answer_of answers m.host)) [
      | none ↦ later
      | some reason ↦ hold reason
    ]

unfoldable pub majority_loss_recovery_verdict :
    Option Str → List MemberRow → Answers → MajorityVerdict
majority_loss_recovery_verdict group_name members answers =
    if ltb (length members) 2
    then healthy
    else if ltb (length members) (reachable_count members * 2)
    then healthy
    else if not (reachable_count members == 1)
    then hold (shared_view (reachable_count members))
    else elim group_name [
      | none ↦ hold identity_unreadable
      | some name ↦ departures name answers members
    ]

unfoldable pub membership_fence_wanted : ℕ → ℕ → Bool → Bool
membership_fence_wanted online effective_configured armed =
    armed && leb (online * 2) (max effective_configured 1)

-- The member's own row says ONLINE PRIMARY.
abbrev pub row_is_primary : Option MemberRow → Bool
row_is_primary none = false
row_is_primary (some m) = str_eq m.state (codes "ONLINE") && str_eq m.role (codes "PRIMARY")

unfoldable pub role_is_writable_primary : List MemberRow → Str → Bool
role_is_writable_primary [] self_uuid = false
role_is_writable_primary (m ∷ ms) self_uuid =
    if leb (reachable_count (m ∷ ms) * 2) (length (m ∷ ms))
    then false
    else row_is_primary (find (λ r. eq_ignore_ascii_case r.member_id self_uuid) (m ∷ ms))
