-- ===== src/Gr/Orchestrate/Local.antt =====
-- mysql-wrapper/src/gr.rs: the markers on the volume, what a node reads of itself
-- (`local_gr_state`, `has_been_group_member`), the name of its group, the credential and the donor
-- of a clone. A marker is its text without the blanks around it.
use mysql_ha.Prelude.{
  ℕ, Bool, true, false, not, ◌&&◌, ◌||◌, Option, none, some, List, [], ◌∷◌, ◌++◌, if◌then◌else◌,
  is_some, unwrap_or, length, any, find, filter, Str, codes, str_eq, is_empty, strip_prefix,
  eq_ignore_ascii_case, is_str,
}
use mysql_ha.Gr.State.{GrState, PeerAnswer, not_ready, unreachable, Answers, MemberRow}
use mysql_ha.Gr.Answers.{group_active_from}

-- `none` and 0 are absent markers.
pub record Volume : Type 0 where
  pub name_marker : Option Str
  pub generation : ℕ
  pub pre_gtid : Bool
  pub member : Bool

unfoldable pub read_group_name_marker : (Str → Bool) → Volume → Option Str
read_group_name_marker is_uuid v = elim v.name_marker [
  | none ↦ none
  | some text ↦ if is_empty text then none else if is_uuid text then some text else none
]

-- The pinned name, the marker, the name derived from the environment.
unfoldable pub resolve_group_name : (Str → Bool) → Option Str → Volume → Str → Str
resolve_group_name is_uuid none v derived = unwrap_or (read_group_name_marker is_uuid v) derived
resolve_group_name is_uuid (some pinned) v derived = pinned

-- Writing a marker, which may fail and then leaves the marker as it was.
unfoldable pub persist_group_name : Bool → Str → Volume → Volume
persist_group_name succeeds name v = if succeeds then record v { name_marker = some name } else v

unfoldable pub persist_waiver_generation : Bool → ℕ → Volume → Volume
persist_waiver_generation succeeds generation v =
    if succeeds then record v { generation = generation } else v

-- `str::contains` of a string.
unfoldable pub has_substring : Str → Str → Bool
has_substring [] part = is_empty part
has_substring (x ∷ xs) part = is_some (strip_prefix part (x ∷ xs)) || has_substring xs part

unfoldable pub has_been_group_member : Volume → Option Str → Str → Bool
has_been_group_member v none group_name = v.member
has_been_group_member v (some set) group_name =
    v.member || has_substring set (group_name ++ codes ":")

-- What mysqld answers to the queries of `local_gr_state`; `none` is a failed query.
pub record Local : Type 0 where
  pub server_uuid : Option Str
  pub members : Option (List MemberRow)
  pub gtid : Option Str
  pub group_pre_gtid_flag : Option Bool
  pub block_size : Option ℕ
  pub is_uuid : Str → Bool

abbrev pub own_row : Str → List MemberRow → Option MemberRow
own_row self_uuid members = find (λ m. eq_ignore_ascii_case m.member_id self_uuid) members

abbrev pub state_of : Option MemberRow → Option Str
state_of none = none
state_of (some m) = some m.state

abbrev pub role_of : Option MemberRow → Option Str
role_of none = none
role_of (some m) = some m.role

-- Whether the group carries data older than its GTIDs, and whether that could not be read.
unfoldable pub pre_gtid_reading : Bool → Option Bool → Bool × Bool
pre_gtid_reading true flag = (true, false)
pre_gtid_reading false (some flag) = (flag, false)
pre_gtid_reading false none = (false, true)

unfoldable pub reported : Volume → Local → Str → List MemberRow → Str → GrState
reported v l self_uuid members gtid =
    let me = own_row self_uuid members in
    let pre = pre_gtid_reading v.pre_gtid l.group_pre_gtid_flag in
    record {
      group_active = group_active_from (state_of me) members;
      member_state = state_of me;
      member_role = role_of me;
      gtid_executed = some gtid;
      members_total = length members;
      members_reachable = length (filter (λ m. not (str_eq m.state (codes "UNREACHABLE"))) members);
      pre_gtid_data = pre.0;
      pre_gtid_data_unknown = pre.1;
      server_uuid = some self_uuid;
      group_name = read_group_name_marker l.is_uuid v;
      gtid_assignment_block_size = l.block_size;
      waiver_generation = v.generation;
    }

unfoldable pub local_gr_state_of :
    Volume → Local → Option Str → Option (List MemberRow) → Option Str → Option GrState
local_gr_state_of v l (some self_uuid) (some members) (some gtid) =
    some (reported v l self_uuid members gtid)
local_gr_state_of v l (some self_uuid) (some members) none = none
local_gr_state_of v l (some self_uuid) none gtid = none
local_gr_state_of v l none members gtid = none

unfoldable pub local_gr_state : Volume → Local → Option GrState
local_gr_state v l = local_gr_state_of v l l.server_uuid l.members l.gtid

-- The marker of a membership that `local_gr_state` writes; the write may fail.
unfoldable pub note_membership : Bool → Option GrState → Volume → Volume
note_membership succeeds none v = v
note_membership succeeds (some s) v =
    if is_str s.member_state (codes "ONLINE") && succeeds then record v { member = true } else v

-- The live members, by whether each reports the primary role.
abbrev pub candidate : Str × PeerAnswer → Option (Str × Bool)
candidate (host, PeerAnswer.state s) =
    if s.group_active then some (host, is_str s.member_role (codes "PRIMARY")) else none
candidate (host, not_ready) = none
candidate (host, unreachable) = none

-- `max_by_key`, which keeps the last of equals.
unfoldable pub later_max : Option (Str × Bool) → Option (Str × Bool) → Option (Str × Bool)
later_max best none = best
later_max none (some c) = some c
later_max (some best) (some c) = if best.1 && not c.1 then some best else some c

unfoldable pub pick_from : Option (Str × Bool) → Answers → Option (Str × Bool)
pick_from best [] = best
pick_from best (x ∷ xs) = pick_from (later_max best (candidate x)) xs

unfoldable pub pick_donor : Answers → Option Str
pick_donor answers = elim (pick_from none answers) [ none ↦ none | some best ↦ some best.0 ]

unfoldable pub recovery_credential : Str → Str → Str → Str
recovery_credential env_recovery env_root active_root =
    if str_eq env_recovery env_root then active_root else env_recovery

-- By the replication password and the root password of the environment, the pin and the password
-- of the boot.
unfoldable pub current_recovery_credential : Option Str → Str → Option Str → Str → Str
current_recovery_credential replication env_root pin boot =
    recovery_credential (unwrap_or replication env_root) env_root (unwrap_or pin boot)

-- The size that an older member is asked for, by its host, uuid and group.
abbrev pub AskBlockSize : Type 0
AskBlockSize = Str → Str → Str → Option ℕ

unfoldable pub asked : AskBlockSize → Str → GrState → Option Str → Option Str → Option ℕ
asked ask host s (some uuid) (some group) = if s.group_active then ask host uuid group else none
asked ask host s (some uuid) none = none
asked ask host s none group = none

unfoldable pub resolve_first : AskBlockSize → Answers → Option Answers
resolve_first ask [] = none
resolve_first ask ((host, PeerAnswer.state s) ∷ rest) =
    let later = resolve_first ask rest in
    elim (asked ask host s s.server_uuid s.group_name) [
      | some size ↦
          some
            ((host, PeerAnswer.state (record s { gtid_assignment_block_size = some size })) ∷ rest)
      | none ↦ elim later [
        | some answers ↦ some ((host, PeerAnswer.state s) ∷ answers)
        | none ↦ none
      ]
    ]
resolve_first ask ((host, not_ready) ∷ rest) = elim (resolve_first ask rest) [
  | some answers ↦ some ((host, not_ready) ∷ answers)
  | none ↦ none
]
resolve_first ask ((host, unreachable) ∷ rest) = elim (resolve_first ask rest) [
  | some answers ↦ some ((host, unreachable) ∷ answers)
  | none ↦ none
]

abbrev pub advertises : PeerAnswer → Bool
advertises (PeerAnswer.state s) = s.group_active && is_some s.gtid_assignment_block_size
advertises not_ready = false
advertises unreachable = false

unfoldable pub resolve_peer_block_sizes : AskBlockSize → Answers → Option Answers
resolve_peer_block_sizes ask answers =
    if any (λ a. advertises a.1) answers then some answers else resolve_first ask answers
