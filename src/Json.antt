-- ===== src/Json.antt =====
-- What the client takes from the crate `serde_json`: a value and its accessors. No behaviour is
-- assumed of them, so every theorem holds for whatever document a server sends.
use fresnica.Prelude.{ℕ, Bool, Option, List, Text}
use fresnica.Int.{ℤ}

pub record Json : Type 1 where
  pub Value : Type 0
  pub Object : Type 0
  pub get : Value → Text → Option Value
  pub as_str : Value → Option Text
  pub as_bool : Value → Option Bool
  pub as_u64 : Value → Option ℕ
  pub as_i64 : Value → Option ℤ
  pub as_array : Value → Option (List Value)
  pub as_object : Value → Option Object
  pub object_get : Object → Text → Option Value
  -- The text of a number, as `to_string` writes it.
  pub number_text : Value → Option Text
