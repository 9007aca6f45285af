-- ===== src/Json.antt =====
-- JSON values, and how `encoding/json` decodes them into the structs of pkg/nginxpm.
-- A key that is missing and a `null` both leave Go's zero value, so `field` answers `null` for a
-- missing key. Keys are matched as the API spells them and are not repeated within an object.
-- A value of the wrong type is an error of the whole decode, and every caller discards its target.
use nginxpm_operator.Base.{
  ℕ, ◌<◌, ◌^◌, ◌-◌, Bool, true, false, Option, none, some, List, [], ◌∷◌, if◌then◌else◌, ltb, leb,
  ℤ, pos, negsuc, ◌==◌, text-Eq, Text,
}
pub mod Laws

mutual
  pub data Json : Type 0 where
    null : Json
    bool : Bool → Json
    int : ℤ → Json
    real : Json
    str : Text → Json
    arr : Items → Json
    obj : Fields → Json

  pub data Items : Type 0 where
    nil : Items
    cons : Json → Items → Items

  pub data Fields : Type 0 where
    end : Fields
    field : Text → Json → Fields → Fields

-- The value of a key.
unfoldable pub get : Text → Fields → Json
get key end = null
get key (field k j fields) = if k == key then j else get key fields

-- `body[key] = value` on a map: the entry of the key is replaced, or a new one is added.
unfoldable pub put : Text → Json → Fields → Fields
put key j end = field key j end
put key j (field k j' fields) =
    let rest = put key j fields in if k == key then field key j fields else field k j' rest

abbrev pub Decoder : Type 0 → Type 0
Decoder A = Json → Option A

infixl 5 ◌>>=◌ ◌>>◌
abbrev pub ◌>>=◌ : {A B : Type 0} → Option A → (A → Option B) → Option B
none >>= f = none
some a >>= f = f a

abbrev pub ◌>>◌ : {B : Type 0} → Option (Unit {0}) → Option B → Option B
m >> k = m >>= λ _. k

-- A number that an `int` of 64 bits holds.
in_range : ℤ → Bool
in_range (pos n) = ltb n (2 ^ 63)
in_range (negsuc n) = ltb n (2 ^ 63)

unfoldable pub decode_int : Decoder ℤ
unfolding in_range
decode_int null = some (pos 0)
decode_int (int z) = if in_range z then some z else none
decode_int j = none

unfoldable pub decode_bool : Decoder Bool
decode_bool null = some false
decode_bool (bool b) = some b
decode_bool j = none

unfoldable pub decode_text : Decoder Text
decode_text null = some []
decode_text (str s) = some s
decode_text j = none

-- A pointer: `null` is nil.
unfoldable pub decode_pointer : {A : Type 0} → Decoder A → Decoder (Option A)
decode_pointer d null = some none
decode_pointer d j = do a ← d j; some (some a)

decode_items : {A : Type 0} → Decoder A → Items → Option (List A)
decode_items d nil = some []
decode_items d (cons j js) = do a ← d j; as' ← decode_items d js; some (a ∷ as')

-- A slice: `null` is the nil slice.
unfoldable pub decode_list : {A : Type 0} → Decoder A → Decoder (List A)
unfolding decode_items
decode_list d null = some []
decode_list d (arr js) = decode_items d js
decode_list d j = none

-- The fields of a struct.
unfoldable pub decode_fields : Decoder Fields
decode_fields null = some end
decode_fields (obj fields) = some fields
decode_fields j = none
