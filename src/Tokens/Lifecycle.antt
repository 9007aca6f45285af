-- ===== src/Tokens/Lifecycle.antt =====
-- How a reconciliation of a token ends.
use nginxpm_operator.Base.{Bool, true, false, ◌≡◌, refl, none, some, Text}
use nginxpm_operator.Errors.{Error}
use nginxpm_operator.Api.{NamespacedName, Token}
use nginxpm_operator.Npm.{Client}
use nginxpm_operator.Npm.Settling.{check_connection-Settles, create_client_token-Settles}
use nginxpm_operator.Effect.{Env, History, ok, monad}
use nginxpm_operator.Effect.Returns.{Settles, Answers, answers_rules, Answers→Settles}
use nginxpm_operator.Controller.{Attempt}
use nginxpm_operator.Controller.Resources.{token-Resource}
use nginxpm_operator.Controller.Settling.{set_condition-Answers, update_status-Answers}
use nginxpm_operator.Tokens.{
  TokenResult, clock, connect, init_client, announce, saved, save_token, report, reconcile_fetched,
  reconcile,
}

clock-Answers : Answers clock
unfolding clock monad
clock-Answers = record { at = λ env t. (_, refl) }

ruleset step_rules =
    (answers_rules, clock-Answers, set_condition-Answers, update_status-Answers, Answers→Settles)

connect-Settles :
    (token : Token) (identity secret : Text) (b : Bool) → Settles (connect token identity secret b)
unfolding connect
connect-Settles token identity secret true = search (step_rules, check_connection-Settles)
connect-Settles token identity secret false =
    search (step_rules, check_connection-Settles, create_client_token-Settles)

init_client-Settles : (req : NamespacedName) (token : Token) → Settles (init_client req token)
unfolding init_client
init_client-Settles req token = search (step_rules, connect-Settles) depth 8

announce-Answers :
    (req : NamespacedName) (c : Client) (token : Token) → Answers (announce req c token)
unfolding announce
announce-Answers req c token = search step_rules

saved-Answers : (req : NamespacedName) (c : Client) (a : Attempt Token) → Answers (saved req c a)
unfolding saved
saved-Answers req c (token, none) = announce-Answers req c token
saved-Answers req c (token, some e) = search step_rules

save_token-Answers :
    (req : NamespacedName) (token : Token) (c : Client) → Answers (save_token req token c)
unfolding save_token
save_token-Answers req token c = search (step_rules, announce-Answers, saved-Answers)

report-Answers : (req : NamespacedName) (token : Token) (e : Error) → Answers (report req token e)
unfolding report
report-Answers req token e = search step_rules

reconcile_fetched-Answers :
    (req : NamespacedName) (token : Token) → Answers (reconcile_fetched req token)
unfolding reconcile_fetched
reconcile_fetched-Answers req token =
    search (step_rules, init_client-Settles, save_token-Answers, report-Answers)

every_reconcile-Answers : (req : NamespacedName) → Answers (reconcile req)
unfolding reconcile
every_reconcile-Answers req = search (step_rules, reconcile_fetched-Answers)

-- Whatever the API server and the instance answer, a reconciliation of a token ends with a result,
-- neither with an error that nothing handles nor with a nil dereference.
pub reconcile-Answers_token :
    (req : NamespacedName) (env : Env) (t : History)
    → (result : TokenResult) × ((reconcile req env t).0 ≡ ok result)
reconcile-Answers_token req = (every_reconcile-Answers req).at
