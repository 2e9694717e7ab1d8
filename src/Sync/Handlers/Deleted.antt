-- ===== src/Sync/Handlers/Deleted.antt =====
-- internal/client/sync/sync_engine_delete.go: which paths are in the syncing state after the result
-- of a delete request.
use syftbox.Base.{
  ℕ, ◌≡◌, refl, Bool, not, ◌&&◌, ◌||◌, List, [], ◌∷◌, Text, text_eq, arith, any, inl, inr, ◌⊎◌,
}
use syftbox.Sync.Status.{set_error}
use syftbox.Sync.Reconcile.{is_syncing}
use syftbox.Sync.Handlers.{
  Engine, DeleteResponse, forget, deleted_keys, delete_error, delete_errors, fail_all,
  handle_delete_result,
}
use syftbox.Sync.Handlers.Finished.{Ends, set_error-Ends, set_completed_and_remove-Ends}

-- The keys that the answer of a delete request speaks of.
abbrev key_of : Text × Text × Text → Text
key_of (key, _, _) = key

abbrev pub named : Text → List Text → Bool
named q keys = any (λ k. text_eq k q) keys

abbrev pub answered : Text → List Text → Text ⊎ DeleteResponse → Bool
answered q batch (inl err) = named q batch
answered q batch (inr r) = named q r.deleted || any (λ x. text_eq (key_of x) q) r.errors

module _ (now : ℕ) where
  fail_all-Ends :
      (err : Text) (keys : List Text) (e : Engine) (q : Text)
      → is_syncing q (fail_all now err keys e).status
        ≡ (not (named q keys) && is_syncing q e.status)
  unfolding fail_all
  fail_all-Ends err [] e q = refl
  fail_all-Ends err (k ∷ ks) e q = ground (
    arith,
    fail_all-Ends err ks (record e { status = set_error err now k e.status }) q,
    set_error-Ends err now k e.status q,
  )

  deleted_keys-Ends :
      (keys : List Text) (e : Engine) (q : Text)
      → is_syncing q (deleted_keys now keys e).status
        ≡ (not (named q keys) && is_syncing q e.status)
  unfolding deleted_keys
  deleted_keys-Ends [] e q = refl
  deleted_keys-Ends (k ∷ ks) e q = ground (
    arith,
    deleted_keys-Ends ks (forget now k e) q,
    set_completed_and_remove-Ends now k e.status q,
  )

  delete_error-Ends :
      (k code err : Text) (e : Engine) → Ends k e.status (delete_error now k code err e).status
  unfolding delete_error
  delete_error-Ends k code err e q =
      ground
        (arith, set_completed_and_remove-Ends now k e.status q, set_error-Ends err now k e.status q)

  delete_errors-Ends :
      (es : List (Text × Text × Text)) (e : Engine) (q : Text)
      → is_syncing q (delete_errors now es e).status
        ≡ (not (any (λ x. text_eq (key_of x) q) es) && is_syncing q e.status)
  unfolding delete_errors
  delete_errors-Ends [] e q = refl
  delete_errors-Ends ((k, code, err) ∷ es) e q = ground (
    arith,
    delete_errors-Ends es (delete_error now k code err e) q,
    delete_error-Ends k code err e q,
  )

  -- The result of a delete request ends the work on exactly the paths that it speaks of: the whole
  -- batch if the request failed, and otherwise the keys of the response. A path of the batch that
  -- the response does not name stays in the syncing state.
  pub handle_delete_result-Ends :
      (batch : List Text) (r : Text ⊎ DeleteResponse) (e : Engine) (q : Text)
      → is_syncing q (handle_delete_result now batch r e).status
        ≡ (not (answered q batch r) && is_syncing q e.status)
  unfolding handle_delete_result
  handle_delete_result-Ends batch (inl err) e q = fail_all-Ends err batch e q
  handle_delete_result-Ends batch (inr r) e q = ground (
    arith,
    delete_errors-Ends r.errors (deleted_keys now r.deleted e) q,
    deleted_keys-Ends r.deleted e q,
  )
