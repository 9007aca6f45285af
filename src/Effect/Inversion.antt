-- ===== src/Effect/Inversion.antt =====
-- What is known of the steps of a block that returned a value.
use nginxpm_operator.Base.{◌≡◌, refl, Option, none, some}
use nginxpm_operator.Errors.{Error}
use nginxpm_operator.Effect.Calls.{Env, Event, History, Kube, found, failed}
use nginxpm_operator.Effect.Monad.{
  Action, Result, ok, err, panic, continue, ◌>>=◌, pure, fail, or_fail, call_kube, kube_result,
  monad,
}

module _ {A B : Type 0} where
  continue-eq-ok :
      (r : Result A) (f : A → Action B) (env : Env) (t : History) (b : B)
      → (continue r f env t).0 ≡ ok b
      → (a : A) × (r ≡ ok a) × ((f a env t).0 ≡ ok b)
  unfolding monad
  continue-eq-ok (ok a) f env t b h = (a, refl, h)
  continue-eq-ok (err e) f env t b h = cc
  continue-eq-ok panic f env t b h = cc

  pub bind-eq-ok :
      (m : Action A) (f : A → Action B) (env : Env) (t : History) (b : B)
      → ((m >>= f) env t).0 ≡ ok b
      → (a : A) × ((m env t).0 ≡ ok a) × ((f a env (m env t).1).0 ≡ ok b)
  unfolding monad
  bind-eq-ok m f env t b h = let (r, t') = m env t in continue-eq-ok r f env t' b h

module _ {A : Type 0} where
  pub or_fail-eq-ok :
      (o : Option A) (e : Error) (env : Env) (t : History) (a : A)
      → (or_fail o e env t).0 ≡ ok a
      → o ≡ some a
  unfolding monad
  or_fail-eq-ok none e env t a h = cc
  or_fail-eq-ok (some b) e env t a h = cc

  kube-eq-ok : (k : Kube A) (a : A) → kube_result k ≡ ok a → k ≡ found a
  kube-eq-ok (found b) a h = cc
  kube-eq-ok (failed e) a h = cc

  pub call_kube-eq-ok :
      (e : Event) (answer : Env → History → Kube A) (env : Env) (t : History) (a : A)
      → (call_kube e answer env t).0 ≡ ok a
      → answer env t ≡ found a
  unfolding monad
  call_kube-eq-ok e answer env t a h = kube-eq-ok (answer env t) a h

  pub pure-eq-ok : (a b : A) (env : Env) (t : History) → (pure a env t).0 ≡ ok b → a ≡ b
  unfolding monad
  pure-eq-ok a b env t h = cc

  pub fail-eq-ok : (e : Error) (a : A) (env : Env) (t : History) → (fail e env t).0 ≡ ok a → ⊥
  unfolding monad
  fail-eq-ok e a env t h = cc
