-- ===== src/Protocol/Plain.antt =====
-- A JSON library of one's own, for concrete runs: an object is a function from keys to texts.
use p2p_desktop_share_new.Base.{
  String, true, false, Option, none, some, ◌≡◌, ◌≢◌, refl, sym, ◌∙◌, eq_iff, if◌then◌else◌, str_eq,
}
use p2p_desktop_share_new.Protocol.{JsonLib}

abbrev pub Fields : Type 0
Fields = String → Option String

abbrev pub set : String → String → Fields → Fields
set key value o j = if str_eq key j then some value else o j

abbrev pub no_fields : Fields
no_fields j = none

abbrev pub registration : Fields
registration = set "token" "t1" (set "room" "r1" (set "type" "host.register" no_fields))

abbrev pub joining : Fields
joining = set "room" "r1" (set "type" "room.join" no_fields)

abbrev pub or_nothing : Option String → String
or_nothing none = ""
or_nothing (some s) = s

abbrev pub plain : JsonLib
plain = record {
  Value = String;
  Object = Fields;
  parse = λ text.
      if str_eq text "register"
      then some registration
      else if str_eq text "join"
      then some joining
      else none;
  serialize = λ o. or_nothing (o "type");
  empty = no_fields;
  find = λ key o. o key;
  put = set;
  erase = λ key o j. if str_eq key j then none else o j;
  as_string = λ v. some v;
  of_string = λ s. s;
  of_bool = λ b. if b then "true" else "false";
  of_size = λ n. "size";
  find-put = λ k j v o. refl;
  find-erase = λ k j o. refl;
  as_string-of_string = λ s. refl;
}

-- Texts that a test tells apart.
pub differ : (s t : String) → str_eq s t ≡ false → s ≢ t
differ s t n e = let bad : true ≡ false = sym ((eq_iff s t).1 e) ∙ n in cc
