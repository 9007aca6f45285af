-- ===== src/Effect/Emits/InWorld.antt =====
-- The rules of `Emits` for one environment, where an action depends on how that one answers.
use nginxpm_operator.Base.{Bool, true, false, if◌then◌else◌, All}
use nginxpm_operator.Errors.{Error}
use nginxpm_operator.Effect.Calls.{Env, Event, History}
use nginxpm_operator.Effect.Monad.{
  Action, Result, ok, err, panic, continue, ◌>>=◌, handle, settled, monad,
}
use nginxpm_operator.Effect.Emits.{Emits}

pub record EmitsIn {A : Type 0} (P : Event → Type 0) (env : Env) (m : Action A) : Type 0 where
  pub at : (t : History) → All P t → All P (m env t).1

module _ {A : Type 0} {P : Event → Type 0} {env : Env} where
  pub Emits→EmitsIn : (m : Action A) → Emits P m → EmitsIn P env m
  Emits→EmitsIn m h = record { at = h.at env }

  pub EmitsIn-if :
      (b : Bool) (m n : Action A)
      → EmitsIn P env m
      → EmitsIn P env n
      → EmitsIn P env (if b then m else n)
  EmitsIn-if true m n hm hn = hm
  EmitsIn-if false m n hm hn = hn

module _ {A B : Type 0} {P : Event → Type 0} {env : Env} where
  EmitsIn-continue :
      (r : Result A) (f : A → Action B)
      → ((a : A) → EmitsIn P env (f a))
      → EmitsIn P env (continue r f)
  unfolding monad
  EmitsIn-continue (ok a) f h = h a
  EmitsIn-continue (err e) f h = record { at = λ t p. p }
  EmitsIn-continue panic f h = record { at = λ t p. p }

  pub EmitsIn-bind :
      (m : Action A) (f : A → Action B)
      → Emits P m
      → ((a : A) → EmitsIn P env (f a))
      → EmitsIn P env (m >>= f)
  unfolding monad
  EmitsIn-bind m f hm hf = record {
    at = λ t h. let (r, t') = m env t in (EmitsIn-continue r f hf).at t' (hm.at env t h);
  }

  pub EmitsIn-handle :
      (m : Action A) (on_ok : A → Action B) (on_error : Error → Action B)
      → EmitsIn P env m
      → ((a : A) → Emits P (on_ok a))
      → ((e : Error) → Emits P (on_error e))
      → EmitsIn P env (handle m on_ok on_error)
  unfolding monad
  EmitsIn-handle m on_ok on_error hm h_ok h_error = record {
    at = λ t h. let (r, t') = m env t in (go r).at env t' (hm.at t h);
  }
    where
      go : (r : Result A) → Emits P (settled r on_ok on_error)
      go (ok a) = h_ok a
      go (err e) = h_error e
      go panic = record { at = λ env t h. h }
