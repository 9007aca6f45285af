-- ===== src/Controller/StatusUpdate.antt =====
-- What `UpdateStatus` leaves behind: the object that the caller goes on with.
use nginxpm_operator.Base.{Option, sym, ◌∙◌, ◌≡◌, refl, arith, none, ◌∷◌, inl, inr}
use nginxpm_operator.Errors.{KubeError}
use nginxpm_operator.Api.{NamespacedName}
use nginxpm_operator.Effect.{
  Env, History, Retry, returns, calls, ReportsLast, IsRetry, found, Kube-cases, fetched,
  status_updated, ok,
}
use nginxpm_operator.Controller.Resources.{Resource}
use nginxpm_operator.Controller.Helpers.{status_attempt, run_attempts, update_status}

module _ {O : Type 0} ⦃r : Resource O⦄ where
  -- `done` is how the API server stored the change of the object that it had answered with just
  -- before.
  pub record Stored (key : NamespacedName) (mutate : Env → O → O) (env : Env) (done : O)
      (t : History) : Type 0 where
    pub before : History
    pub current : O
    pub was_fetched : (r.store env).get before key ≡ found current
    pub was_stored :
        (r.store env).update_status (fetched r.kind key ∷ before) (mutate env current) ≡ found done
    pub last : t ≡ status_updated (r.embed (mutate env current)) ∷ fetched r.kind key ∷ before

  attempt-Stored :
      (key : NamespacedName) (mutate : Env → O → O) (o : O) (env : Env) (t : History)
      → (status_attempt key mutate o env t).0.1 ≡ none
      → Stored key mutate env
          (status_attempt key mutate o env t).0.0
          (status_attempt key mutate o env t).1
  unfolding status_attempt
  attempt-Stored key mutate o env t h = elim (Kube-cases ((r.store env).get t key)) [
    | inr (e, q) ↦ absurd (ground arith)
    | inl (o', q) ↦
        elim (Kube-cases ((r.store env).update_status (fetched r.kind key ∷ t) (mutate env o'))) [
          | inr (e, q') ↦ absurd (ground arith)
          | inl (o'', q') ↦
              rw (status_attempt, q, q')
                (record { before = t; current = o'; was_fetched = q; was_stored = q'; last = refl })
        ]
  ]

  -- After a call, what is returned without an error is what the last call stored.
  attempts-Stored :
      (retry : Retry) (key : NamespacedName) (mutate : Env → O → O) (o : O) (env : Env)
      (t : History) (e : Option KubeError)
      → ReportsLast e retry
      → (e ≡ none → Stored key mutate env o t)
      → (run_attempts retry key mutate o env t).0.1 ≡ none
      → Stored key mutate env
          (run_attempts retry key mutate o env t).0.0
          (run_attempts retry key mutate o env t).1
  unfolding run_attempts
  attempts-Stored (returns e') key mutate o env t e reports stored h = stored (sym reports ∙ h)
  attempts-Stored (calls next) key mutate o env t e reports stored h =
      let (done, t') = status_attempt key mutate o env t in
      attempts-Stored (next done.1) key mutate done.0 env t' done.1 (reports done.1)
        (attempt-Stored key mutate o env t) h

  retry-Stored :
      (retry : Retry) (key : NamespacedName) (mutate : Env → O → O) (o : O) (env : Env)
      (t : History)
      → IsRetry retry
      → (run_attempts retry key mutate o env t).0.1 ≡ none
      → Stored key mutate env
          (run_attempts retry key mutate o env t).0.0
          (run_attempts retry key mutate o env t).1
  unfolding run_attempts
  retry-Stored (returns e) key mutate o env t is_retry h = absurd is_retry
  retry-Stored (calls next) key mutate o env t is_retry h =
      let (done, t') = status_attempt key mutate o env t in
      attempts-Stored (next done.1) key mutate done.0 env t' done.1 (is_retry done.1)
        (attempt-Stored key mutate o env t) h

  -- When client-go's RetryOnConflict calls its function and returns the error of the last call, and
  -- the update of a status has no error, the object that the caller goes on with is how the API
  -- server stored the last change, which was made to the object that the server had just answered
  -- with.
  pub update_status-Stored :
      (key : NamespacedName) (mutate : Env → O → O) (o : O) (env : Env) (t : History) (done : O)
      → IsRetry (env.retry_on_conflict t)
      → (update_status key mutate o env t).0 ≡ ok (done, none)
      → Stored key mutate env done (update_status key mutate o env t).1
  unfolding update_status
  update_status-Stored key mutate o env t done is_retry h =
      let final = (run_attempts (env.retry_on_conflict t) key mutate o env t).0 in
      let object : final.0 ≡ done = cc in
      let no_error : final.1 ≡ none = cc in
      rw (← object) (retry-Stored (env.retry_on_conflict t) key mutate o env t is_retry no_error)
