-- ===== src/Controller/Fetching.antt =====
-- The events of a reconciliation that starts from a resource which can be fetched.
use nginxpm_operator.Base.{Bool, false, ◌≡◌, ◌∷◌, All, if◌then◌else◌}
use nginxpm_operator.Errors.{Error}
use nginxpm_operator.Api.{NamespacedName}
use nginxpm_operator.Effect.{Env, Event, History, Action, found, fetched, handle, monad}
use nginxpm_operator.Effect.Emits.{Emits}
use nginxpm_operator.Controller.Resources.{Resource, get_object}

pub Emits-else :
    {A : Type 0} {P : Event → Type 0} (b : Bool) (m n : Action A)
    → b ≡ false
    → Emits P n
    → Emits P (if b then m else n)
Emits-else b m n e h = rw e h

module _ {O A : Type 0} ⦃r : Resource O⦄ {P : Event → Type 0} where
  pub fetched-emits :
      (req : NamespacedName) (o : O) (f : O → Action A) (g : Error → Action A) (env : Env)
      (t : History)
      → (r.store env).get t req ≡ found o
      → P (fetched r.kind req)
      → Emits P (f o)
      → All P t
      → All P (handle (get_object {O = O} req) f g env t).1
  unfolding monad
  fetched-emits req o f g env t is_found p h all =
      rw is_found (h.at env (fetched r.kind req ∷ t) (p, all))
