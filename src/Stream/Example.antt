-- ===== src/Stream/Example.antt =====
-- An outside for runs of stream.py and connection.py: a Tornado whose texts are ASCII, and an application
-- that takes all at once.
use tornado_http.Common.{
  Bool, true, false, ◌||◌, none, some, List, [], ◌∷◌, bytes_eq, if◌then◌else◌,
}
use tornado_http.Constants.{codes}
use tornado_http.Errors.{Exn, Result, ok, err}
use tornado_http.Hpack.Encoder.{lower}
use tornado_http.Stream.{Text, Fields}
use tornado_http.Stream.Outside.{Outside}

abbrev pub field_there : Text → Fields → Bool
field_there name [] = false
field_there name ((k, v) ∷ fields) = bytes_eq (lower name) (lower k) || field_there name fields

abbrev pub field_value : Text → Fields → Result Text
field_value name [] = err Exn.key_error
field_value name ((k, none) ∷ fields) = field_value name fields
field_value name ((k, some v) ∷ fields) =
    if bytes_eq (lower name) (lower k) then ok v else field_value name fields

abbrev pub field_pairs : Fields → List (Text × Text)
field_pairs [] = []
field_pairs ((k, none) ∷ fields) = field_pairs fields
field_pairs ((k, some v) ∷ fields) = (k, v) ∷ field_pairs fields

abbrev pub example : Outside
example = record {
  io_write = λ calls bs. ok tt;
  returns_none = λ calls content. true;
  native_str = λ bs. ok bs;
  utf8 = λ text. text;
  add_field = λ fields name value. ok tt;
  has_field = field_there;
  get_field = field_value;
  all_fields = field_pairs;
  responses = λ code. codes "OK";
}
