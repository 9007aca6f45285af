-- ===== src/Effect/Ends.antt =====
-- A property of how a run ends, through the handling of an error: whichever way the first action
-- goes, one of the two handlers ends the run.
use nginxpm_operator.Base.{◌≢◌, refl}
use nginxpm_operator.Errors.{Error}
use nginxpm_operator.Effect.Calls.{Env, History}
use nginxpm_operator.Effect.Monad.{Action, Result, ok, err, panic, handle, settled, monad}
use nginxpm_operator.Effect.Returns.{Settles}

module _ {A B : Type 0} (P : Result B × History → Type 0) (env : Env) where
  settled-ends :
      (r : Result A) (on_ok : A → Action B) (on_error : Error → Action B) (t : History)
      → r ≢ panic
      → ((a : A) → P (on_ok a env t))
      → ((e : Error) → P (on_error e env t))
      → P (settled r on_ok on_error env t)
  unfolding settled
  settled-ends (ok a) f g t h hf hg = hf a
  settled-ends (err e) f g t h hf hg = hg e
  settled-ends panic f g t h hf hg = absurd (h refl)

  pub handle-ends :
      (m : Action A) (on_ok : A → Action B) (on_error : Error → Action B) (t : History)
      → Settles m
      → ((a : A) (t' : History) → P (on_ok a env t'))
      → ((e : Error) (t' : History) → P (on_error e env t'))
      → P (handle m on_ok on_error env t)
  unfolding monad
  handle-ends m f g t h hf hg =
      let (r, t') = m env t in settled-ends r f g t' (h.at env t) (λ a. hf a t') (λ e. hg e t')
