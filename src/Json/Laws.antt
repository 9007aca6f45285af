-- ===== src/Json/Laws.antt =====
-- Laws of JSON objects: reading a key after a write.
use nginxpm_operator.Base.{◌≡◌, refl, arith, if◌then◌else◌, ◌==◌, text-Eq, text_eq_iff, Text}
use nginxpm_operator.Json.{Json, Fields, field, end, get, put}

pub get-put :
    (key k : Text) (j : Json) (fields : Fields)
    → get k (put key j fields) ≡ (if key == k then j else get k fields)
unfolding get put
get-put key k j end = refl
get-put key k j (field k' j' fields) =
    ground (arith, get-put key k j fields, text_eq_iff key k, text_eq_iff k' k, text_eq_iff k' key)
