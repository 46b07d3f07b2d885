-- ===== src/Platform/Json.antt =====
-- JSON values, as Go's `any` after decoding. An object is a `map[string]any`.
use signalyard.Common.{String, String_eq, Bool, ◌==◌, if◌then◌else◌}

mutual
  pub data Json : Type 0 where
    null : Json
    boolean : Bool → Json
    number : String → Json
    text : String → Json
    array : Items → Json
    object : Object → Json

  pub data Items : Type 0 where
    nil : Items
    cons : Json → Items → Items

  pub data Object : Type 0 where
    end : Object
    field : String → Json → Object → Object

-- `raw[key]`: a missing key reads as nil.
unfoldable pub get : Object → String → Json
get end key = null
get (field k v rest) key = let later = get rest key in if k == key then v else later
