-- ===== src/Effect/Monad.antt =====
-- Actions: functions of the environment and the history, with Go's errors and panics as results.
use nginxpm_operator.Base.{Option, none, some, Bool, ◌∷◌, Text, if◌then◌else◌}
use nginxpm_operator.Errors.{Error, kube}
use nginxpm_operator.Effect.Calls.{
  Env, Event, History, sent, fetched, recorded, Request, Reply, Kube, found, failed, Kind,
}
use nginxpm_operator.Api.{NamespacedName}

pub data Result (A : Type 0) : Type 0 where
  ok : A → Result A
  err : Error → Result A
  panic : Result A

abbrev pub Action : Type 0 → Type 0
Action A = Env → History → Result A × History

module _ {A : Type 0} where
  unfoldable pub pure : A → Action A
  pure a env t = (ok a, t)

  unfoldable pub fail : Error → Action A
  fail e env t = (err e, t)

  unfoldable pub nil_dereference : Action A
  nil_dereference env t = (panic, t)

-- The rest of a block after the result of its first action.
unfoldable pub continue : {A B : Type 0} → Result A → (A → Action B) → Action B
unfolding fail nil_dereference
continue (ok a) f = f a
continue (err e) f = fail e
continue panic f = nil_dereference

infixl 5 ◌>>=◌ ◌>>◌
unfoldable pub ◌>>=◌ : {A B : Type 0} → Action A → (A → Action B) → Action B
unfolding continue
◌>>=◌ m f env t = let (r, t') = m env t in continue r f env t'

abbrev pub ◌>>◌ : {B : Type 0} → Action (Unit {0}) → Action B → Action B
m >> k = m >>= λ _. k

-- `x, err := f()` where the caller looks at the error itself.
abbrev pub settle : {A : Type 0} → Result A → Result (Result A)
settle (ok a) = ok (ok a)
settle (err e) = ok (err e)
settle panic = panic

unfoldable pub attempt : {A : Type 0} → Action A → Action (Result A)
attempt m env t = let (r, t') = m env t in (settle r, t')

-- A call whose error is only logged, or dropped.
abbrev pub ignore_error : {A : Type 0} → Action A → Action (Unit {0})
ignore_error m = attempt m >>= λ _. pure tt

abbrev pub when : Bool → Action (Unit {0}) → Action (Unit {0})
when b m = if b then m else pure tt

-- `*p` on a pointer that may be nil.
unfoldable pub dereference : {A : Type 0} → Option A → Action A
unfolding pure nil_dereference
dereference none = nil_dereference
dereference (some a) = pure a

unfoldable pub or_fail : {A : Type 0} → Option A → Error → Action A
unfolding pure fail
or_fail none e = fail e
or_fail (some a) e = pure a

unfoldable pub read : {A : Type 0} → (Env → A) → Action A
read f env t = (ok (f env), t)

abbrev pub kube_result : {A : Type 0} → Kube A → Result A
kube_result (found a) = ok a
kube_result (failed e) = err (kube e)

-- A call of the API server, with the event that it leaves in the history.
unfoldable pub call_kube : {A : Type 0} → Event → (Env → History → Kube A) → Action A
call_kube e answer env t = (kube_result (answer env t), e ∷ t)

abbrev pub fetch :
    {A : Type 0} → Kind → (Env → History → NamespacedName → Kube A) → NamespacedName → Action A
fetch kind answer key = call_kube (fetched kind key) (λ env t. answer env t key)

-- `http.Client.Do`
unfoldable pub send : Request → Action Reply
send request env t = (ok (env.http t request), sent request ∷ t)

-- `r.Recorder.Event`
unfoldable pub record_event : Text → Action (Unit {0})
record_event reason env t = (ok tt, recorded reason ∷ t)

-- `x, err := f(); if err != nil { ... }` where the caller answers the error itself.
unfoldable pub settled : {A B : Type 0} → Result A → (A → Action B) → (Error → Action B) → Action B
unfolding nil_dereference
settled (ok a) on_ok on_error = on_ok a
settled (err e) on_ok on_error = on_error e
settled panic on_ok on_error = nil_dereference

unfoldable pub handle : {A B : Type 0} → Action A → (A → Action B) → (Error → Action B) → Action B
unfolding settled
handle m on_ok on_error env t = let (r, t') = m env t in settled r on_ok on_error env t'

-- To unfold this name is to unfold the combinators.
unfoldable pub monad : Unit {0}
unfolding ◌>>=◌ pure attempt dereference or_fail read call_kube send record_event handle
monad = tt
