-- ===== src/Plugin.antt =====
-- internal/plugin/plugins: the helpers that read a plugin's settings (helpers.go). A map is
-- iterated in the order of its list; which order that is, the language leaves open.
pub mod KeyAuth
pub mod IpRestriction
pub mod Transform
pub mod Jwt
pub mod RateLimit
pub mod Builtin
use web_server.Prelude.{ℕ, Bool, true, false, List, [], ◌∷◌, Option, none, some}
use web_server.Text.{Bytes}
use web_server.Http.Message.{Request}
use web_server.Config.{
  Value, Values, Fields, Float, text, flag, int, float, items, fields, nil, item, end, field,
}
use web_server.Config.Maps.{field_of}

-- A middleware's decision about a request: an error of this status, or the request that goes on.
pub data Verdict : Type 0 where
  refuse : ℕ → Verdict
  forward : Request → Verdict

-- The handler that a middleware makes of the next one.
abbrev pub decide : {W : Type 0} → (ℕ → W) → (Request → W) → Verdict → W
decide http_error next (refuse status) = http_error status
decide http_error next (forward r) = next r

-- The type assertions of the helpers.
abbrev pub text_or_default : Option Value → Bytes → Bytes
text_or_default (some (text (c ∷ s))) def = c ∷ s
text_or_default _ def = def

abbrev pub flag_or_false : Option Value → Bool
flag_or_false (some (flag b)) = b
flag_or_false _ = false

abbrev pub float_or_zero : Option Value → Float
float_or_zero (some (float f)) = f
float_or_zero _ = record { mantissa = 0; exponent = 0 }

abbrev pub entries_of : Option Value → Fields
entries_of (some (fields m)) = m
entries_of _ = end

abbrev pub items_of : Option Value → Values
items_of (some (items vs)) = vs
items_of _ = nil

unfoldable pub text_entries : Fields → List (Bytes × Bytes)
text_entries end = []
text_entries (field k (text s) rest) = (k, s) ∷ text_entries rest
text_entries (field k v rest) = text_entries rest

unfoldable pub text_items : Values → List Bytes
text_items nil = []
text_items (item (text s) rest) = s ∷ text_items rest
text_items (item v rest) = text_items rest

unfoldable pub string_or : Fields → Bytes → Bytes → Bytes
string_or cfg key def = text_or_default (field_of key cfg) def

unfoldable pub bool_val : Fields → Bytes → Bool
bool_val cfg key = flag_or_false (field_of key cfg)

unfoldable pub float_val : Fields → Bytes → Float
float_val cfg key = float_or_zero (field_of key cfg)

unfoldable pub string_map : Fields → Bytes → List (Bytes × Bytes)
unfolding text_entries
string_map cfg key = text_entries (entries_of (field_of key cfg))

unfoldable pub string_list : Fields → Bytes → List Bytes
unfolding text_items
string_list cfg key = text_items (items_of (field_of key cfg))
