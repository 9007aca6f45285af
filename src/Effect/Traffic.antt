-- ===== src/Effect/Traffic.antt =====
-- Predicates on the events of a history that the theorems speak of.
use nginxpm_operator.Base.{Bool, true, false, ◌≡◌}
use nginxpm_operator.Effect.Calls.{
  Event, sent, fetched, listed, updated, status_updated, recorded, Method, get_method, post_method,
  put_method, delete_method,
}

abbrev pub is_delete : Method → Bool
is_delete delete_method = true
is_delete get_method = false
is_delete post_method = false
is_delete put_method = false

-- No request deletes anything on the instance.
abbrev pub IsNotDelete : Event → Type 0
IsNotDelete (sent r) = is_delete r.method ≡ false
IsNotDelete (fetched k key) = Unit
IsNotDelete (listed k) = Unit
IsNotDelete (updated o) = Unit
IsNotDelete (status_updated o) = Unit
IsNotDelete (recorded r) = Unit

abbrev pub is_get : Method → Bool
is_get get_method = true
is_get delete_method = false
is_get post_method = false
is_get put_method = false

-- Every request to the instance is a GET.
abbrev pub IsRead : Event → Type 0
IsRead (sent r) = is_get r.method ≡ true
IsRead (fetched k key) = Unit
IsRead (listed k) = Unit
IsRead (updated o) = Unit
IsRead (status_updated o) = Unit
IsRead (recorded r) = Unit
