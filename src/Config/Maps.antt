-- ===== src/Config/Maps.antt =====
-- A map[string]interface{} of the configuration, by its keys.
use web_server.Prelude.{if◌then◌else◌, Option, none, some}
use web_server.Text.{Bytes, eqb}
use web_server.Config.{Value, Fields, end, field}

-- `m[key]` and `m[key] = v`.
unfoldable pub field_of : Bytes → Fields → Option Value
field_of key end = none
field_of key (field k v rest) = if eqb k key then some v else field_of key rest

unfoldable pub set_field : Bytes → Value → Fields → Fields
set_field key v end = field key v end
set_field key v (field k w rest) =
    let tail = set_field key v rest in if eqb k key then field k v rest else field k w tail
