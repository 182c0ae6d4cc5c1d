-- ===== src/Admin/SessionManager/Examples.antt =====
-- A session of an hour.
use jc_proxy.Prelude.{◌≡◌, ◌*◌, none, some, if◌then◌else◌}
use jc_proxy.Prelude.Int.{pos, minute, after, add_duration}
use jc_proxy.Admin.SessionManager.{SessionManager, new_session_manager, create, validate}
use jc_proxy.Admin.SessionManager.Validity.{validate-create}

abbrev manager : SessionManager
manager = new_session_manager (pos (60 * minute))

validate-create_example :
    (validate (pos (30 * minute)) "t" (create (pos 1) "t" "admin" manager).0).1 ≡ (
      if after (pos (30 * minute)) (add_duration (pos 1) manager.ttl)
      then none
      else some (record { username = "admin"; expires_at = add_duration (pos 1) manager.ttl }))
validate-create_example = validate-create manager "t" (pos 1) (pos (30 * minute)) "admin"
