-- ===== src/Gateway/Payload.antt =====
-- The payload of a point or of a search result in clientlibs/js/proto/apigateway/apigateway.ts: an
-- object from strings to strings, as the list of its entries in the order of insertion.
use vectron.Prelude.{String, List, [], ◌∷◌, str_eq, if◌then◌else◌}

abbrev pub Payload : Type 0
Payload = List (String × String)

-- `payload[key] = value`
pub put : Payload → String → String → Payload
put [] key value = (key, value) ∷ []
put ((k, v) ∷ rest) key value =
    if str_eq k key then (key, value) ∷ rest else (k, v) ∷ put rest key value

-- `entries.reduce((acc, [key, value]) => { acc[key] = value; return acc; }, acc)`
unfoldable pub put_all : Payload → List (String × String) → Payload
put_all acc [] = acc
put_all acc ((key, value) ∷ rest) = put_all (put acc key value) rest
