-- ===== src/Health.antt =====
-- mysql-wrapper/src/health_server.rs: what `/role` answers, the routing contract of HAProxy.
pub mod Routing
use mysql_ha.Prelude.{
  ℕ, Bool, false, Option, none, some, List, [], ◌∷◌, if◌then◌else◌, find, In.here, In.there, Str,
  codes, str_eq, contains, eq_ignore_ascii_case,
}
use mysql_ha.Gr.State.{MemberRow}
use mysql_ha.Gr.Majority.{role_is_writable_primary}

pub data Reason : Type 0 where
  mysqld_not_answering state_unavailable : Reason

pub data RoleVerdict : Type 0 where
  primary : RoleVerdict
  fenced replica : Str → RoleVerdict
  unavailable : Reason → RoleVerdict

-- The JSON bodies; `ready` is the flag of the last two that hold one.
pub data Body : Type 0 where
  primary_body : Body
  fenced_body replica_body : Str → Bool → Body
  unknown_body : Reason → Body

abbrev pub ready_replica_states : List Str
ready_replica_states = codes "ONLINE" ∷ []

abbrev pub own_row : List MemberRow → Str → Option MemberRow
own_row members self_uuid = find (λ m. eq_ignore_ascii_case m.member_id self_uuid) members

abbrev pub state_of : Option MemberRow → Str
state_of none = codes "OFFLINE"
state_of (some m) = m.state

abbrev pub holds_primary_role : Option MemberRow → Bool
holds_primary_role none = false
holds_primary_role (some m) = str_eq m.role (codes "PRIMARY")

unfoldable pub role_verdict : List MemberRow → Str → Bool → RoleVerdict
role_verdict members self_uuid membership_fenced =
    let own = own_row members self_uuid in
    if role_is_writable_primary members self_uuid
    then if membership_fenced then fenced (state_of own) else primary
    else if holds_primary_role own
    then fenced (state_of own)
    else replica (state_of own)

abbrev pub status_ok : ℕ
status_ok = 200

abbrev pub status_service_unavailable : ℕ
status_service_unavailable = 503

unfoldable pub role_reply : RoleVerdict → ℕ × Body
role_reply primary = (status_ok, primary_body)
role_reply (fenced state) = (status_service_unavailable, fenced_body state false)
role_reply (replica state) =
    (status_service_unavailable, replica_body state (contains ready_replica_states state))
role_reply (unavailable reason) = (status_service_unavailable, unknown_body reason)

-- What the handler finds: whether the node stands alone, whether mysqld answers a ping, the two
-- readings of the group, and the membership fence.
pub record AppState : Type 0 where
  pub standalone : Bool
  pub ping_succeeds : Bool
  pub server_uuid : Option Str
  pub group_members : Option (List MemberRow)
  pub membership_fenced : Bool

unfoldable pub verdict_of : AppState → RoleVerdict
verdict_of s = elim s.server_uuid [
  | none ↦ unavailable state_unavailable
  | some self_uuid ↦ elim s.group_members [
    | none ↦ unavailable state_unavailable
    | some members ↦ role_verdict members self_uuid s.membership_fenced
  ]
]

unfoldable pub role : AppState → ℕ × Body
role s =
    if s.standalone
    then if s.ping_succeeds
      then role_reply primary
      else role_reply (unavailable mysqld_not_answering)
    else role_reply (verdict_of s)
