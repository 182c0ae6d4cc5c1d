-- ===== src/Admin/SessionManager/Validity.antt =====
-- Which tokens the session manager of internal/admin/auth.go accepts.
use Prim.Native.String.{String}
use jc_proxy.Prelude.{◌≡◌, ◌≢◌, refl, Bool-cases, none, some, inl, inr, if◌then◌else◌, Option-cases}
use jc_proxy.Prelude.Int.{Time, after, add_duration}
use jc_proxy.Prelude.Table.{lookup, lookup-put, lookup-put_ne, lookup-remove, lookup-remove_ne}
use jc_proxy.Admin.SessionManager.{
  AdminSession, SessionManager, create, validated, validate, delete, delete_all,
}

module _ (m : SessionManager) (token : String) where
  -- A new session is accepted, with its user and expiry, up to the time of expiry, and at no later
  -- instant.
  pub validate-create :
      (now t : Time) (username : String)
      → (validate t token (create now token username m).0).1 ≡ (
          if after t (add_duration now m.ttl)
          then none
          else some (record { username = username; expires_at = add_duration now m.ttl }))
  unfolding validate validated create
  validate-create now t username =
      let s : AdminSession = record { username = username; expires_at = add_duration now m.ttl } in
      elim (Bool-cases (after t (add_duration now m.ttl))) [
        | inl late ↦ rw (lookup-put m.sessions token s, late)
        | inr early ↦ rw (lookup-put m.sessions token s, early)
      ]

  -- A deleted session is not accepted at any instant, and deleting all sessions does the same.
  pub validate-delete :
      (t : Time)
      → ((validate t token (delete token m)).1 ≡ none)
        × ((validate t token (delete_all m)).1 ≡ none)
  unfolding validate validated delete delete_all lookup
  validate-delete t = (rw (lookup-remove m.sessions token), refl)

  -- Creating a session for one token, deleting it and validating it leave the sessions of every
  -- other token as they were.
  pub lookup-others :
      (other : String) (now t : Time) (username : String)
      → token ≢ other
      → (lookup (create now token username m).0.sessions other ≡ lookup m.sessions other)
        × (lookup (delete token m).sessions other ≡ lookup m.sessions other)
        × (lookup (validate t token m).0.sessions other ≡ lookup m.sessions other)
  unfolding validate validated create delete
  lookup-others other now t username n = (
    lookup-put_ne m.sessions token other _ n,
    lookup-remove_ne m.sessions token other n,
    elim (Option-cases (lookup m.sessions token)) [
      | inl e ↦ rw e refl
      | inr (s, e) ↦ elim (Bool-cases (after t s.expires_at)) [
        | inl late ↦ rw (e, late) (lookup-remove_ne m.sessions token other n)
        | inr early ↦ rw (e, early) refl
      ]
    ],
  )
