-- ===== src/Tokens/Credentials.antt =====
-- When the credentials of a token are sent to the instance.
use nginxpm_operator.Base.{Bool, true, ◌≡◌, ◌∷◌, Text, ℤ, int_ltb, All, none, some}
use nginxpm_operator.Errors.{Error}
use nginxpm_operator.Api.{NamespacedName, Token}
use nginxpm_operator.Npm.{Client}
use nginxpm_operator.Npm.ReadOnly.{check_connection-IsRead}
use nginxpm_operator.Effect.{Env, History, ◌>>=◌, pure, found, fetched, kind_token, monad}
use nginxpm_operator.Effect.Emits.{Emits, Emits-call_kube, Emits-or_fail, emits_rules}
use nginxpm_operator.Effect.Emits.InWorld.{
  EmitsIn, Emits→EmitsIn, EmitsIn-if, EmitsIn-bind, EmitsIn-handle,
}
use nginxpm_operator.Effect.Traffic.{IsRead}
use nginxpm_operator.Controller.{Attempt, set_condition, starting}
use nginxpm_operator.Controller.Resources.{token-Resource}
use nginxpm_operator.Controller.ReadOnly.{set_condition-IsRead, update_status-IsRead}
use nginxpm_operator.Tokens.{
  done, clock, has_valid_token, connect, init_client, announce, saved, save_token, report,
  reconcile_fetched, reconcile,
}

ruleset step_rules = (emits_rules, set_condition-IsRead, update_status-IsRead)

clock-IsRead : Emits IsRead clock
unfolding clock monad
clock-IsRead = record { at = λ env t h. h }

connect-IsRead :
    (token : Token) (identity secret : Text) (b : Bool)
    → b ≡ true
    → Emits IsRead (connect token identity secret b)
unfolding connect
connect-IsRead token identity secret b e = rw e (search (step_rules, check_connection-IsRead))

module _ (req : NamespacedName) (token : Token) where
  announce-IsRead : (c : Client) (o : Token) → Emits IsRead (announce req c o)
  unfolding announce
  announce-IsRead c o = search (step_rules, clock-IsRead)

  saved-IsRead : (c : Client) (a : Attempt Token) → Emits IsRead (saved req c a)
  unfolding saved
  saved-IsRead c (o, none) = announce-IsRead c o
  saved-IsRead c (o, some e) = search step_rules

  save_token-IsRead : (c : Client) → Emits IsRead (save_token req token c)
  unfolding save_token
  save_token-IsRead c = search (step_rules, announce-IsRead, saved-IsRead)

  report-IsRead : (e : Error) → Emits IsRead (report req token e)
  unfolding report
  report-IsRead e = search step_rules

  start-IsRead : Emits IsRead (set_condition req starting token >>= λ o. pure done)
  start-IsRead = search step_rules

  module _ (env : Env) (valid : (h : History) → has_valid_token token (env.now h) ≡ true) where
    by_clock :
        (identity secret : Text)
        → EmitsIn IsRead env
            (clock >>= λ now. connect token identity secret (has_valid_token token now))
    unfolding clock monad
    by_clock identity secret = record {
      at = λ t h. (connect-IsRead token identity secret _ (valid t)).at env t h;
    }

    init_client-IsRead : EmitsIn IsRead env (init_client req token)
    unfolding init_client
    init_client-IsRead = EmitsIn-bind _ _ (Emits-call_kube _ _ tt) (λ values.
        EmitsIn-bind _ _ (Emits-or_fail _ _)
          (λ identity. EmitsIn-bind _ _ (Emits-or_fail _ _) (λ secret. by_clock identity secret)))

    fetched-IsRead : EmitsIn IsRead env (reconcile_fetched req token)
    unfolding reconcile_fetched
    fetched-IsRead =
        EmitsIn-if _ _ _ (Emits→EmitsIn _ start-IsRead)
          (EmitsIn-handle _ _ _ init_client-IsRead save_token-IsRead report-IsRead)

has_valid_token-before :
    (token : Token) (value : Text) (expires now : ℤ)
    → token.status.token ≡ some value
    → token.status.expires ≡ some expires
    → int_ltb now expires ≡ true
    → has_valid_token token now ≡ true
unfolding has_valid_token
has_valid_token-before token value expires now e e' before = rw e (rw e' before)

-- As long as the clock stands before the expiry of the token in the status, the reconciliation of a
-- token resource writes nothing to the instance, and so sends no credentials: every request that it
-- adds to the history is a GET, whatever the instance answers.
pub reconcile-IsRead :
    (req : NamespacedName) (token : Token) (value : Text) (expires : ℤ) (env : Env) (t : History)
    → env.tokens.get t req ≡ found token
    → token.status.token ≡ some value
    → token.status.expires ≡ some expires
    → ((h : History) → int_ltb (env.now h) expires ≡ true)
    → All IsRead t
    → All IsRead (reconcile req env t).1
unfolding reconcile monad
reconcile-IsRead req token value expires env t is_found e e' before h =
    let valid =
      λ (u : History). has_valid_token-before token value expires (env.now u) e e' (before u) in
    rw is_found ((fetched-IsRead req token env valid).at (fetched kind_token req ∷ t) (tt, h))
