-- ===== src/Firewall/Bus.antt =====
-- firewalld as it is seen over D-Bus: the methods that the program calls, over an unknown state
-- of the daemon. A method call fails, or it answers with a message, whose body may not decode.
pub mod Memory
use netavark.Prelude.{String, ◌<>◌, Bool, List, Result, ok, err, str_eq, if◌then◌else◌}
use netavark.Prelude.Dict.{Dict}
use netavark.Error.{NetavarkResult, dbus, dbus_variant, wrap_error}

-- `zvariant::Value`, as far as the program looks into it: an `array` holds the signature of its
-- elements and the elements, and `other` is any other value, by its signature.
mutual
  pub data Value : Type 0 where
    str : String → Value
    bool : Bool → Value
    structure : Values → Value
    array : String → Values → Value
    other : String → Value

  pub data Values : Type 0 where
    nil : Values
    cons : Value → Values → Values

unfoldable mutual
  pub signature : Value → String
  signature (str _) = "s"
  signature (bool _) = "b"
  signature (structure vs) = "(" <> (signatures vs <> ")")
  signature (array sig _) = "a" <> sig
  signature (other sig) = sig

  pub signatures : Values → String
  signatures nil = ""
  signatures (cons v vs) = signature v <> signatures vs

-- The elements of an array, pushed at the end.
abbrev pub push_value : Values → Value → Values
push_value nil v = cons v nil
push_value (cons w ws) v = cons w (push_value ws v)

-- `Array::append`, which refuses an element of another signature.
unfoldable pub append_value : String → Values → Value → NetavarkResult Values
unfolding signature
append_value sig vs v =
    if str_eq sig (signature v) then ok (push_value vs v) else err (dbus_variant "incorrect type")

abbrev pub Reply : Type 0 → Type 0
Reply A = Result String (Result String A)

pub record Bus : Type 1 where
  pub State : Type 0
  -- `Connection::system` succeeds, and `GetNameOwner` finds an owner for firewalld.
  pub has_system : State → Bool
  pub has_owner : State → Bool
  pub get_zones : State → Reply (List String)
  pub get_zone_names : State → Reply (List String)
  pub add_zone2 : String → State → Result String Unit × State
  pub get_zone_of_source : String → State → Reply String
  pub change_zone_of_source : String → String → State → Result String Unit × State
  pub remove_source : String → String → State → Result String Unit × State
  pub get_policies : State → Reply (List String)
  pub get_policy_names : State → Reply (List String)
  pub add_policy : String → Dict Value → State → Result String Unit × State
  pub get_policy_settings : String → State → Reply (Dict Value)
  pub set_policy_settings : String → Dict Value → State → Result String Unit × State
  pub reload : State → Result String Unit × State

-- `call_method(...)?`, then `body()` with its error wrapped.
abbrev pub body : {A : Type 0} → String → Reply A → NetavarkResult A
body text (ok (ok a)) = ok a
body text (ok (err e)) = err (wrap_error text (dbus e))
body text (err e) = err (dbus e)
