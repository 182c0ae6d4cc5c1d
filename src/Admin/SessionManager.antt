-- ===== src/Admin/SessionManager.antt =====
-- internal/admin/auth.go: the sessions of the administration interface. The token, which the source
-- draws at random, and the clock reading are arguments. Reading and deleting in `Validate` stand
-- under two locks; the model takes no call of another token's owner in between.
pub mod Validity
pub mod Examples
use Prim.Native.String.{String}
use jc_proxy.Prelude.{ℕ, ◌*◌, Option, none, some, [], if◌then◌else◌}
use jc_proxy.Prelude.Int.{ℤ, pos, leb_ℤ, Time, Duration, after, add_duration, minute}
use jc_proxy.Prelude.Table.{Table, lookup, put, remove}

pub record AdminSession : Type 0 where
  pub username : String
  pub expires_at : Time

pub record SessionManager : Type 0 where
  pub ttl : Duration
  pub sessions : Table AdminSession

unfoldable pub new_session_manager : Duration → SessionManager
new_session_manager ttl = record {
  ttl = if leb_ℤ ttl (pos 0) then pos (12 * (60 * minute)) else ttl;
  sessions = [];
}

-- The result is the time of expiry.
unfoldable pub create : Time → String → String → SessionManager → SessionManager × Time
create now token username m =
    let expires_at = add_duration now m.ttl in
    let session : AdminSession = record { username = username; expires_at = expires_at } in
    (record m { sessions = put m.sessions token session }, expires_at)

validated :
    Time → String → SessionManager → Option AdminSession → SessionManager × Option AdminSession
validated now token m none = (m, none)
validated now token m (some s) =
    if after now s.expires_at
    then (record m { sessions = remove m.sessions token }, none)
    else (m, some s)

unfoldable pub validate : Time → String → SessionManager → SessionManager × Option AdminSession
unfolding validated
validate now token m = validated now token m (lookup m.sessions token)

unfoldable pub delete : String → SessionManager → SessionManager
delete token m = record m { sessions = remove m.sessions token }

unfoldable pub delete_all : SessionManager → SessionManager
delete_all m = record m { sessions = [] }
