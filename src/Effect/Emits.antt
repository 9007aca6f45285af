-- ===== src/Effect/Emits.antt =====
-- What an action adds to the history, one rule for each way to build an action: every event
-- satisfies `P`, if those before it did.
pub mod InWorld
use nginxpm_operator.Base.{Bool, true, false, Option, none, some, Text, All, if◌then◌else◌}
use nginxpm_operator.Errors.{Error}
use nginxpm_operator.Effect.Calls.{Env, Event, History, sent, recorded, Request, Kube}
use nginxpm_operator.Effect.Monad.{
  Action, Result, ok, err, panic, pure, fail, nil_dereference, continue, ◌>>=◌, attempt,
  dereference, or_fail, read, call_kube, send, record_event, handle, settled, monad,
}

pub record Emits {A : Type 0} (P : Event → Type 0) (m : Action A) : Type 0 where
  pub at : (env : Env) (t : History) → All P t → All P (m env t).1

module _ {A : Type 0} {P : Event → Type 0} where
  pub Emits-pure : (a : A) → Emits P (pure a)
  unfolding monad
  Emits-pure a = record { at = λ env t h. h }

  pub Emits-fail : (e : Error) → Emits P (fail {A = A} e)
  unfolding monad
  Emits-fail e = record { at = λ env t h. h }

  pub Emits-nil_dereference : Emits P (nil_dereference {A = A})
  unfolding monad
  Emits-nil_dereference = record { at = λ env t h. h }

  pub Emits-dereference : (o : Option A) → Emits P (dereference o)
  unfolding monad
  Emits-dereference none = record { at = λ env t h. h }
  Emits-dereference (some a) = record { at = λ env t h. h }

  pub Emits-or_fail : (o : Option A) (e : Error) → Emits P (or_fail o e)
  unfolding monad
  Emits-or_fail none e = record { at = λ env t h. h }
  Emits-or_fail (some a) e = record { at = λ env t h. h }

  pub Emits-read : (f : Env → A) → Emits P (read f)
  unfolding monad
  Emits-read f = record { at = λ env t h. h }

  pub Emits-if : (b : Bool) (m n : Action A) → Emits P m → Emits P n → Emits P (if b then m else n)
  Emits-if true m n hm hn = hm
  Emits-if false m n hm hn = hn

  pub Emits-attempt : (m : Action A) → Emits P m → Emits P (attempt m)
  unfolding monad
  Emits-attempt m h = record { at = h.at }

  pub Emits-call_kube :
      (e : Event) (answer : Env → History → Kube A) → P e → Emits P (call_kube e answer)
  unfolding monad
  Emits-call_kube e answer p = record { at = λ env t h. (p, h) }

module _ {P : Event → Type 0} where
  pub Emits-send : (request : Request) → P (sent request) → Emits P (send request)
  unfolding monad
  Emits-send request p = record { at = λ env t h. (p, h) }

  pub Emits-record_event : (reason : Text) → P (recorded reason) → Emits P (record_event reason)
  unfolding monad
  Emits-record_event reason p = record { at = λ env t h. (p, h) }

module _ {A B : Type 0} {P : Event → Type 0} where
  pub Emits-continue :
      (r : Result A) (f : A → Action B) → ((a : A) → Emits P (f a)) → Emits P (continue r f)
  unfolding monad
  Emits-continue (ok a) f h = h a
  Emits-continue (err e) f h = record { at = λ env t p. p }
  Emits-continue panic f h = record { at = λ env t p. p }

  pub Emits-bind :
      (m : Action A) (f : A → Action B) → Emits P m → ((a : A) → Emits P (f a)) → Emits P (m >>= f)
  unfolding monad
  Emits-bind m f hm hf = record {
    at = λ env t h. let (r, t') = m env t in (Emits-continue r f hf).at env t' (hm.at env t h);
  }

module _ {A B : Type 0} {P : Event → Type 0} where
  pub Emits-handle :
      (m : Action A) (on_ok : A → Action B) (on_error : Error → Action B)
      → Emits P m
      → ((a : A) → Emits P (on_ok a))
      → ((e : Error) → Emits P (on_error e))
      → Emits P (handle m on_ok on_error)
  unfolding monad
  Emits-handle m on_ok on_error hm h_ok h_error = record {
    at = λ env t h. let (r, t') = m env t in (go r).at env t' (hm.at env t h);
  }
    where
      go : (r : Result A) → Emits P (settled r on_ok on_error)
      go (ok a) = h_ok a
      go (err e) = h_error e
      go panic = record { at = λ env t h. h }

pub ruleset emits_rules = (
  Emits-pure, Emits-fail, Emits-nil_dereference, Emits-dereference, Emits-or_fail, Emits-read,
  Emits-if, Emits-attempt, Emits-call_kube, Emits-send, Emits-record_event, Emits-bind,
  Emits-handle,
)
