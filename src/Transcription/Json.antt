-- ===== src/Transcription/Json.antt =====
-- The values that `response.json()` can give, and the tests that
-- src/oreeai_notetaker/integrations/transcription/deepgram.py makes on them.
use oreeai_notetaker.Prelude.{
  ℕ, suc, ℤ, pos, scale, Bool, true, false, Option, none, some, String, str_eq, if◌then◌else◌,
  show_int,
}

-- A float is its number of millionths.
mutual
  pub data Json : Type 0 where
    null : Json
    bool : Bool → Json
    int : ℤ → Json
    float : ℤ → Json
    str : String → Json
    arr : Items → Json
    obj : Fields → Json

  pub data Items : Type 0 where
    nil : Items
    cons : Json → Items → Items

  pub data Fields : Type 0 where
    end : Fields
    field : String → Json → Fields → Fields

-- `d.get(key)` on a dict: `none` for a missing key, which Python gives as `None`.
unfoldable pub get : String → Fields → Option Json
get k end = none
get k (field j v fs) = if str_eq j k then some v else get k fs

-- `isinstance(v, int)`, and then `str(v)`: a bool is an int.
unfoldable pub as_int_text : Option Json → Option String
unfolding show_int
as_int_text (some (bool true)) = some "True"
as_int_text (some (bool false)) = some "False"
as_int_text (some (int n)) = some (show_int n)
as_int_text _ = none

-- `isinstance(v, (int, float))`, and then `float(v)`.
unfoldable pub as_float : Option Json → Option ℤ
as_float (some (bool true)) = some (pos 1000000)
as_float (some (bool false)) = some (pos 0)
as_float (some (int n)) = some (scale 1000000 n)
as_float (some (float x)) = some x
as_float _ = none

-- `isinstance(v, str)`
unfoldable pub as_str : Option Json → Option String
as_str (some (str s)) = some s
as_str _ = none

-- `isinstance(v, list)`
unfoldable pub as_list : Option Json → Option Items
as_list (some (arr xs)) = some xs
as_list _ = none

-- `isinstance(v, dict)`
unfoldable pub as_dict : Option Json → Option Fields
as_dict (some (obj fs)) = some fs
as_dict _ = none

abbrev pub length_items : Items → ℕ
length_items nil = 0
length_items (cons x xs) = suc (length_items xs)
