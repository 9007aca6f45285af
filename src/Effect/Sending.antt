-- ===== src/Effect/Sending.antt =====
-- Which requests an action sends, in order: one rule for each way to build an action.
use nginxpm_operator.Base.{
  Bool, true, false, ◌≡◌, refl, ◌∙◌, Option, none, some, List, [], ◌∷◌, Text, if◌then◌else◌,
}
use nginxpm_operator.Errors.{Error}
use nginxpm_operator.Effect.Calls.{
  Env, History, sent, fetched, listed, updated, status_updated, recorded, Request,
}
use nginxpm_operator.Effect.Monad.{
  Action, Result, ok, err, panic, pure, fail, continue, ◌>>=◌, or_fail, read, record_event, handle,
  settled, attempt, ignore_error, monad,
}

-- The requests in a history, the newest first.
abbrev pub requests : History → List Request
requests [] = []
requests (sent r ∷ t) = r ∷ requests t
requests (fetched k key ∷ t) = requests t
requests (listed k ∷ t) = requests t
requests (updated o ∷ t) = requests t
requests (status_updated o ∷ t) = requests t
requests (recorded r ∷ t) = requests t

-- The action sends nothing to the instance.
pub record IsSilent {A : Type 0} (m : Action A) : Type 0 where
  pub at : (env : Env) (t : History) → requests (m env t).1 ≡ requests t

module _ {A : Type 0} where
  pub IsSilent-pure : (a : A) → IsSilent (pure a)
  unfolding monad
  IsSilent-pure a = record { at = λ env t. refl }

  pub IsSilent-fail : (e : Error) → IsSilent (fail {A = A} e)
  unfolding monad
  IsSilent-fail e = record { at = λ env t. refl }

  pub IsSilent-or_fail : (o : Option A) (e : Error) → IsSilent (or_fail o e)
  unfolding monad
  IsSilent-or_fail none e = record { at = λ env t. refl }
  IsSilent-or_fail (some a) e = record { at = λ env t. refl }

  pub IsSilent-read : (f : Env → A) → IsSilent (read f)
  unfolding monad
  IsSilent-read f = record { at = λ env t. refl }

  pub IsSilent-if :
      (b : Bool) (m n : Action A) → IsSilent m → IsSilent n → IsSilent (if b then m else n)
  IsSilent-if true m n hm hn = hm
  IsSilent-if false m n hm hn = hn

pub IsSilent-record_event : (reason : Text) → IsSilent (record_event reason)
unfolding monad
IsSilent-record_event reason = record { at = λ env t. refl }

module _ {A B : Type 0} where
  IsSilent-continue :
      (r : Result A) (f : A → Action B) → ((a : A) → IsSilent (f a)) → IsSilent (continue r f)
  unfolding monad
  IsSilent-continue (ok a) f h = h a
  IsSilent-continue (err e) f h = record { at = λ env t. refl }
  IsSilent-continue panic f h = record { at = λ env t. refl }

  IsSilent-settled :
      (r : Result A) (on_ok : A → Action B) (on_error : Error → Action B)
      → ((a : A) → IsSilent (on_ok a))
      → ((e : Error) → IsSilent (on_error e))
      → IsSilent (settled r on_ok on_error)
  unfolding monad
  IsSilent-settled (ok a) f g hf hg = hf a
  IsSilent-settled (err e) f g hf hg = hg e
  IsSilent-settled panic f g hf hg = record { at = λ env t. refl }

  -- What follows silently adds no request.
  pub requests-bind :
      (m : Action A) (f : A → Action B) (env : Env) (t : History)
      → ((a : A) → IsSilent (f a))
      → requests ((m >>= f) env t).1 ≡ requests (m env t).1
  unfolding monad
  requests-bind m f env t hf = let (r, t') = m env t in (IsSilent-continue r f hf).at env t'

  pub requests-handle :
      (m : Action A) (f : A → Action B) (g : Error → Action B) (env : Env) (t : History)
      → ((a : A) → IsSilent (f a))
      → ((e : Error) → IsSilent (g e))
      → requests (handle m f g env t).1 ≡ requests (m env t).1
  unfolding monad
  requests-handle m f g env t hf hg =
      let (r, t') = m env t in (IsSilent-settled r f g hf hg).at env t'

  -- The rest of a block after a first action that answers.
  pub bind-runs :
      (m : Action A) (f : A → Action B) (a : A) (env : Env) (t : History)
      → (m env t).0 ≡ ok a
      → (m >>= f) env t ≡ f a env (m env t).1
  unfolding monad
  bind-runs m f a env t e = rw e refl

  pub IsSilent-bind :
      (m : Action A) (f : A → Action B)
      → IsSilent m
      → ((a : A) → IsSilent (f a))
      → IsSilent (m >>= f)
  IsSilent-bind m f hm hf = record { at = λ env t. requests-bind m f env t hf ∙ hm.at env t }

  pub IsSilent-handle :
      (m : Action A) (f : A → Action B) (g : Error → Action B)
      → IsSilent m
      → ((a : A) → IsSilent (f a))
      → ((e : Error) → IsSilent (g e))
      → IsSilent (handle m f g)
  IsSilent-handle m f g hm hf hg = record {
    at = λ env t. requests-handle m f g env t hf hg ∙ hm.at env t;
  }

-- An error that is dropped changes no request.
pub requests-ignore_error :
    {A : Type 0} (m : Action A) (env : Env) (t : History)
    → requests (ignore_error m env t).1 ≡ requests (m env t).1
unfolding monad
requests-ignore_error m env t = requests-bind (attempt m) _ env t (λ r. IsSilent-pure tt)

pub ruleset silent_rules = (
  IsSilent-pure, IsSilent-fail, IsSilent-or_fail, IsSilent-read, IsSilent-if, IsSilent-record_event,
  IsSilent-bind, IsSilent-handle,
)
