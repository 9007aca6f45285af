-- ===== src/Effect/Returns.antt =====
-- What an action returns when it returns at all, and that it does not end in a panic: one rule for
-- each way to build an action.
use nginxpm_operator.Base.{
  Bool, true, false, ◌≡◌, ◌≢◌, refl, arith, Option, none, some, Text, if◌then◌else◌,
}
use nginxpm_operator.Errors.{Error}
use nginxpm_operator.Effect.Calls.{Env, Event, History, Request, Kube, found, failed}
use nginxpm_operator.Effect.Monad.{
  Action, Result, ok, err, panic, pure, fail, continue, ◌>>=◌, attempt, settle, or_fail, read,
  call_kube, send, record_event, handle, settled, monad, ignore_error,
}

-- Every value that the action returns satisfies `P`.
pub record Returns {A : Type 0} (P : A → Type 0) (m : Action A) : Type 0 where
  pub at : (env : Env) (t : History) (a : A) → (m env t).0 ≡ ok a → P a

-- The action returns a value or an error, and does not panic.
pub record Settles {A : Type 0} (m : Action A) : Type 0 where
  pub at : (env : Env) (t : History) → (m env t).0 ≢ panic

-- The action returns a value, neither an error nor a panic.
pub record Answers {A : Type 0} (m : Action A) : Type 0 where
  pub at : (env : Env) (t : History) → (a : A) × ((m env t).0 ≡ ok a)

module _ {A : Type 0} where
  pub Returns-pure : {P : A → Type 0} (a : A) → P a → Returns P (pure a)
  unfolding monad
  Returns-pure {P} a p = record { at = λ env t b e. let q : a ≡ b = ground arith in rw (← q) p }

  pub Returns-fail : {P : A → Type 0} (e : Error) → Returns P (fail {A = A} e)
  unfolding monad
  Returns-fail e = record { at = λ env t b q. cc }

  pub Returns-if :
      {P : A → Type 0} (b : Bool) (m n : Action A)
      → (b ≡ true → Returns P m)
      → (b ≡ false → Returns P n)
      → Returns P (if b then m else n)
  Returns-if true m n hm hn = hm refl
  Returns-if false m n hm hn = hn refl

  pub Settles-pure : (a : A) → Settles (pure a)
  unfolding monad
  Settles-pure a = record { at = λ env t. ground arith }

  pub Settles-fail : (e : Error) → Settles (fail {A = A} e)
  unfolding monad
  Settles-fail e = record { at = λ env t. ground arith }

  pub Settles-or_fail : (o : Option A) (e : Error) → Settles (or_fail o e)
  unfolding monad
  Settles-or_fail none e = record { at = λ env t. ground arith }
  Settles-or_fail (some a) e = record { at = λ env t. ground arith }

  pub Settles-read : (f : Env → A) → Settles (read f)
  unfolding monad
  Settles-read f = record { at = λ env t. ground arith }

  pub Settles-if :
      (b : Bool) (m n : Action A) → Settles m → Settles n → Settles (if b then m else n)
  Settles-if true m n hm hn = hm
  Settles-if false m n hm hn = hn

  pub Settles-call_kube :
      (e : Event) (answer : Env → History → Kube A) → Settles (call_kube e answer)
  unfolding monad
  Settles-call_kube e answer = record { at = λ env t. go (answer env t) }
    where
      go : (k : Kube A) → elim k [ found a ↦ ok a | failed e ↦ err (Error.kube e) ] ≢ panic
      go (found a) = ground arith
      go (failed e) = ground arith

pub Settles-send : (request : Request) → Settles (send request)
unfolding monad
Settles-send request = record { at = λ env t. ground arith }

pub Settles-record_event : (reason : Text) → Settles (record_event reason)
unfolding monad
Settles-record_event reason = record { at = λ env t. ground arith }

module _ {A B : Type 0} where
  Settles-continue :
      (r : Result A) (f : A → Action B)
      → r ≢ panic
      → ((a : A) → Settles (f a))
      → Settles (continue r f)
  unfolding monad
  Settles-continue (ok a) f h hf = hf a
  Settles-continue (err e) f h hf = record { at = λ env t. ground arith }
  Settles-continue panic f h hf = absurd (h refl)

  pub Settles-bind :
      (m : Action A) (f : A → Action B) → Settles m → ((a : A) → Settles (f a)) → Settles (m >>= f)
  unfolding monad
  Settles-bind m f hm hf = record {
    at = λ env t. let (r, t') = m env t in (Settles-continue r f (hm.at env t) hf).at env t';
  }

  Settles-settled :
      (r : Result A) (on_ok : A → Action B) (on_error : Error → Action B)
      → r ≢ panic
      → ((a : A) → Settles (on_ok a))
      → ((e : Error) → Settles (on_error e))
      → Settles (settled r on_ok on_error)
  unfolding monad
  Settles-settled (ok a) f g h hf hg = hf a
  Settles-settled (err e) f g h hf hg = hg e
  Settles-settled panic f g h hf hg = absurd (h refl)

  pub Settles-handle :
      (m : Action A) (on_ok : A → Action B) (on_error : Error → Action B)
      → Settles m
      → ((a : A) → Settles (on_ok a))
      → ((e : Error) → Settles (on_error e))
      → Settles (handle m on_ok on_error)
  unfolding monad
  Settles-handle m f g hm hf hg = record {
    at = λ env t. let (r, t') = m env t in (Settles-settled r f g (hm.at env t) hf hg).at env t';
  }

  Answers-continue :
      (r : Result A) (f : A → Action B) (a : A)
      → r ≡ ok a
      → ((a : A) → Answers (f a))
      → Answers (continue r f)
  unfolding monad
  Answers-continue (ok b) f a h hf = hf b
  Answers-continue (err e) f a h hf = cc
  Answers-continue panic f a h hf = cc

  pub Answers-bind :
      (m : Action A) (f : A → Action B) → Answers m → ((a : A) → Answers (f a)) → Answers (m >>= f)
  unfolding monad
  Answers-bind m f hm hf = record {
    at = λ env t.
        let (r, t') = m env t in
        let (a, e) = hm.at env t in (Answers-continue r f a e hf).at env t';
  }

  Answers-settled :
      (r : Result A) (on_ok : A → Action B) (on_error : Error → Action B)
      → r ≢ panic
      → ((a : A) → Answers (on_ok a))
      → ((e : Error) → Answers (on_error e))
      → Answers (settled r on_ok on_error)
  unfolding monad
  Answers-settled (ok a) f g h hf hg = hf a
  Answers-settled (err e) f g h hf hg = hg e
  Answers-settled panic f g h hf hg = absurd (h refl)

  pub Answers-handle :
      (m : Action A) (on_ok : A → Action B) (on_error : Error → Action B)
      → Settles m
      → ((a : A) → Answers (on_ok a))
      → ((e : Error) → Answers (on_error e))
      → Answers (handle m on_ok on_error)
  unfolding monad
  Answers-handle m f g hm hf hg = record {
    at = λ env t. let (r, t') = m env t in (Answers-settled r f g (hm.at env t) hf hg).at env t';
  }

  Returns-continue :
      {Q : A → Type 0} {P : B → Type 0} (r : Result A) (f : A → Action B)
      → ((a : A) → r ≡ ok a → Q a)
      → ((a : A) → Q a → Returns P (f a))
      → Returns P (continue r f)
  unfolding monad
  Returns-continue (ok a) f h hf = hf a (h a refl)
  Returns-continue (err e) f h hf = record { at = λ env t b q. cc }
  Returns-continue panic f h hf = record { at = λ env t b q. cc }

  -- The rest of a block may use what its first action returns.
  pub Returns-bind :
      {Q : A → Type 0} {P : B → Type 0} (m : Action A) (f : A → Action B)
      → Returns Q m
      → ((a : A) → Q a → Returns P (f a))
      → Returns P (m >>= f)
  unfolding monad
  Returns-bind m f hm hf = record {
    at = λ env t. let (r, t') = m env t in (Returns-continue r f (hm.at env t) hf).at env t';
  }

module _ {A : Type 0} where
  pub Answers-pure : (a : A) → Answers (pure a)
  unfolding monad
  Answers-pure a = record { at = λ env t. (a, refl) }

  pub Answers-read : (f : Env → A) → Answers (read f)
  unfolding monad
  Answers-read f = record { at = λ env t. (f env, refl) }

  pub Answers-if :
      (b : Bool) (m n : Action A) → Answers m → Answers n → Answers (if b then m else n)
  Answers-if true m n hm hn = hm
  Answers-if false m n hm hn = hn

  settle-Answers : (r : Result A) → r ≢ panic → (a : Result A) × (settle r ≡ ok a)
  settle-Answers (ok a) h = (_, refl)
  settle-Answers (err e) h = (_, refl)
  settle-Answers panic h = absurd (h refl)

  -- An error that the caller looks at, or drops, ends nothing.
  pub Answers-attempt : (m : Action A) → Settles m → Answers (attempt m)
  unfolding monad
  Answers-attempt m hm = record { at = λ env t. settle-Answers (m env t).0 (hm.at env t) }

  Settles-ok : (r : Result A) (a : A) → r ≡ ok a → r ≢ panic
  Settles-ok r a e = ground arith

  pub Answers→Settles : (m : Action A) → Answers m → Settles m
  Answers→Settles m hm = record {
    at = λ env t. let (a, e) = hm.at env t in Settles-ok (m env t).0 a e;
  }

  pub Returns-any : (m : Action A) → Returns (λ _. Unit {0}) m
  Returns-any m = record { at = λ env t a e. tt }

ignored :
    {A : Type 0} (r : Result A) (env : Env) (t : History)
    → r ≢ panic
    → continue (settle r) (λ _. pure tt) env t ≡ (ok tt, t)
unfolding monad
ignored (ok a) env t h = refl
ignored (err e) env t h = refl
ignored panic env t h = absurd (h refl)

-- A call whose error is dropped leaves its events and nothing else.
pub ignore_error-runs :
    {A : Type 0} (m : Action A) (env : Env) (t : History)
    → Settles m
    → ignore_error m env t ≡ (ok tt, (m env t).1)
unfolding monad
ignore_error-runs m env t hm = ignored (m env t).0 env (m env t).1 (hm.at env t)

pub Answers-record_event : (reason : Text) → Answers (record_event reason)
unfolding monad
Answers-record_event reason = record { at = λ env t. (tt, refl) }

pub ruleset settles_rules = (
  Settles-pure, Settles-fail, Settles-or_fail, Settles-read, Settles-if, Settles-call_kube,
  Settles-send, Settles-record_event, Settles-bind, Settles-handle,
)

pub ruleset answers_rules = (
  settles_rules, Answers-pure, Answers-read, Answers-if, Answers-bind, Answers-handle,
  Answers-attempt, Answers-record_event,
)
