-- ===== src/Keystore/AsyncStore/OverFile.antt =====
-- internal/keystore: the asynchronous store over the file store.
use Prim.Native.String.{String}
use jc_proxy.Prelude.{◌≡◌, refl, ap, sym, inl, inr, Bool-cases, true, arith, List, [], ◌∷◌, some}
use jc_proxy.Prelude.Float.{FloatOps}
use jc_proxy.Prelude.Int.{pos, ℤ, Time, eqb_ℤ}
use jc_proxy.Prelude.Result.{Result, ok, err, map_ok-err, err_inj}
use jc_proxy.Prelude.Text.{trim_space}
use jc_proxy.Keystore.Record.{Record}
use jc_proxy.Keystore.FileStore.{
  FileStore, Faults, no_faults, StoreError, list, list_all, save_vendor_locked,
}
use jc_proxy.Keystore.FileStore.Updates.{save_vendor_locked-no_faults}
use jc_proxy.Keystore.FileStore.Operations.{
  replace, append, delete, set_status, set_status_if_version, delete_vendor, change_key, update_key,
  save_changed, status_change,
}
use jc_proxy.Keystore.AsyncStore.{StoreOps, PendingStatusUpdate, new_async_status_store}
use jc_proxy.Keystore.AsyncStore.Calls.{AsyncCall, perform_all, perform_all-WellFormed}
use jc_proxy.Keystore.AsyncStore.Worker.{apply_pending, flush_pending, is_conflict}
use jc_proxy.Keystore.AsyncStore.Flush.{Named, Answers, flush_pending-drains}
use text.Mathlib.Text.{◌==◌ as str_eq}

module _ {F : Type 0} ⦃fl : FloatOps F⦄ where
  -- The file store as a base store, where the file system answers by `faults` and the clock by `now`.
  unfoldable pub file_ops : Faults → Time → StoreOps (FileStore F) F
  file_ops faults now = record {
    list_all = λ fs. ok (list_all fs);
    list = λ v fs. ok (list v fs);
    replace = λ v ks fs. replace faults now v ks fs;
    append = λ v ks fs. append faults now v ks fs;
    delete = λ v ks fs. delete faults v ks fs;
    set_status = λ v k s why who fs. set_status faults now v k s why who fs;
    set_status_if_version =
        λ v k n s why who fs. set_status_if_version faults now v k n s why who fs;
    delete_vendor = λ v fs. delete_vendor faults v fs;
  }

-- A file store, and what the file system and the clock will answer to its calls, one by one; once
-- the list is used up, the file system is healthy.
pub record Disk (F : Type 0) : Type 0 where
  pub files : FileStore F
  pub answers : List (Faults × Time)

abbrev first_answer : List (Faults × Time) → Faults × Time
first_answer [] = (no_faults, pos 0)
first_answer (a ∷ rest) = a

abbrev later_answers : List (Faults × Time) → List (Faults × Time)
later_answers [] = []
later_answers (a ∷ rest) = rest

module _ {F : Type 0} where
  abbrev answered :
      {A : Type 0}
      → (Faults → Faults)
      → (Faults → Time → FileStore F → FileStore F × Result StoreError A)
      → Disk F
      → Disk F × Result StoreError A
  answered see call d =
      let (faults, now) = first_answer d.answers in
      let out = call (see faults) now d.files in
      (record { files = out.0; answers = later_answers d.answers }, out.1)

module _ {F : Type 0} ⦃fl : FloatOps F⦄ where
  -- The file store as a base store in which each call that writes has an answer of its own. `see` is
  -- what becomes of its faults.
  unfoldable pub disk_ops : (Faults → Faults) → StoreOps (Disk F) F
  unfolding file_ops
  disk_ops see = record {
    list_all = λ d. ok (list_all d.files);
    list = λ v d. ok (list v d.files);
    replace = λ v ks. answered see (λ faults now. (file_ops faults now).replace v ks);
    append = λ v ks. answered see (λ faults now. (file_ops faults now).append v ks);
    delete = λ v ks. answered see (λ faults now. (file_ops faults now).delete v ks);
    set_status = λ v k s why who.
        answered see (λ faults now. (file_ops faults now).set_status v k s why who);
    set_status_if_version = λ v k n s why who.
        answered see (λ faults now. (file_ops faults now).set_status_if_version v k n s why who);
    delete_vendor = λ v. answered see (λ faults now. (file_ops faults now).delete_vendor v);
  }

Answers-ok : {S : Type 0} (out : S × Result StoreError (Unit {0})) → out.1 ≡ ok tt → Answers out
Answers-ok (s, ok a) h = tt
Answers-ok (s, err e) h = absurd (ground arith)

Answers-moved :
    {S T : Type 0} (out : S × Result StoreError (Unit {0})) (t : T)
    → Answers out
    → Answers (t, out.1)
Answers-moved (s, ok a) t h = tt
Answers-moved (s, err e) t h = h

module _ {F : Type 0} where
  status_change-conflict :
      (n : ℤ) (now : Time) (s why who : String) (r : Record F) (e : StoreError)
      → status_change (some n) now s why who r ≡ err e
      → is_conflict e ≡ true
  unfolding status_change is_conflict
  status_change-conflict n now s why who r e h = elim (Bool-cases (eqb_ℤ r.version n)) [
    | inl g ↦ absurd (ground arith)
    | inr g ↦ ap is_conflict (sym (err_inj (rw g at h)))
  ]

  -- Looking for the key fails for good, if it fails.
  update_key-conflict :
      (key : String) (n : ℤ) (now : Time) (s why who : String) (rs : List (Record F))
      (e : StoreError)
      → update_key key (status_change (some n) now s why who) rs ≡ err e
      → is_conflict e ≡ true
  unfolding update_key is_conflict
  update_key-conflict key n now s why who [] e h = ap is_conflict (sym (err_inj h))
  update_key-conflict key n now s why who (r ∷ rs) e h = elim (Bool-cases (str_eq r.key key)) [
    | inl g ↦
        status_change-conflict n now s why who r e (
          map_ok-err (λ (q : Record F). q ∷ rs) (status_change (some n) now s why who r)
            (rw g at h))
    | inr g ↦ update_key-conflict key n now s why who rs e (
        map_ok-err (λ (qs : List (Record F)). r ∷ qs)
          (update_key key (status_change (some n) now s why who) rs) (rw g at h))
  ]

  saved-Answers :
      (v : String) (fs : FileStore F) (r : Result StoreError (List (Record F)))
      → ((e : StoreError) → r ≡ err e → is_conflict e ≡ true)
      → Answers (save_changed no_faults v fs r)
  unfolding save_changed
  saved-Answers v fs (ok rs) h =
      Answers-ok (save_vendor_locked no_faults tt v rs fs) (save_vendor_locked-no_faults tt v rs fs)
  saved-Answers v fs (err e) h = h e refl

module _ {F : Type 0} ⦃fl : FloatOps F⦄ where
  -- A healthy file store answers each update that names a vendor and a key.
  file_ops-Answers :
      (now : Time) (u : PendingStatusUpdate) (fs : FileStore F)
      → Named u
      → Answers (apply_pending (file_ops no_faults now) u fs)
  unfolding file_ops apply_pending set_status_if_version change_key
  file_ops-Answers now u fs (v, k) =
      rw (v, k)
        (saved-Answers _ fs _ (
          update_key-conflict (trim_space u.key) u.expected_version now u.status u.reason u.actor
            _))

  disk_ops-Answers :
      (u : PendingStatusUpdate) (d : Disk F)
      → Named u
      → Answers (apply_pending (disk_ops (λ faults. no_faults)) u d)
  unfolding disk_ops apply_pending
  disk_ops-Answers u d named =
      let now = (first_answer d.answers).1 in
      let out = apply_pending (file_ops no_faults now) u d.files in
      let after : Disk F = record { files = out.0; answers = later_answers d.answers } in
      Answers-moved out after (file_ops-Answers now u d.files named)

  -- After any sequence of calls and flushes over a file store, in which every write of a file may
  -- fail or succeed on its own, one undisturbed flush on a healthy file system leaves nothing
  -- pending.
  pub flush_pending-file_store :
      (fs : FileStore F) (answers : List (Faults × Time)) (cs : List AsyncCall)
      → (flush_pending (disk_ops (λ faults. no_faults)) (
          perform_all
            (disk_ops (λ faults. faults))
            cs
            (new_async_status_store (record { files = fs; answers = answers })))).0.pending
        ≡ []
  flush_pending-file_store fs answers cs =
      let disk : Disk F = record { files = fs; answers = answers } in
      let w = perform_all-WellFormed (disk_ops (λ faults. faults)) disk cs in
      flush_pending-drains (disk_ops (λ faults. no_faults)) _ w.unique w.keyed disk_ops-Answers
