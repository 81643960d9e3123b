-- ===== src/Auth/Session.antt =====
-- What the proxy does with the messages of the authentication service (auth/session.cpp, and the
-- controller's handlers of Insert and Remove).
use roq_fix_proxy.Prelude.{ℕ, Option, List, [], ◌∷◌, ◌==◌, if◌then◌else◌}
use roq_fix_proxy.Prelude.{none, some}
use roq_fix_proxy.Prelude.Text.{Text, text_eq, codes}
use roq_fix_proxy.Prelude.Effect.{Result, ok, err, malformed, ◌>>=◌, skip, for_each}
use roq_fix_proxy.Externals.{Externals}
use roq_fix_proxy.Shared
use roq_fix_proxy.World.{World, Output}
use roq_fix_proxy.World.Access.{Method, modify_shared, emit}
use roq_fix_proxy.Auth.Json.{
  Json, null, string, number, array, object, Items, Members, empty, member,
}

-- auth::Session::Insert and Remove
pub record Insert : Type 0 where
  pub component : Text
  pub username : Text
  pub password : Text
  pub strategy_id : ℕ

pub record Remove : Type 0 where
  pub component : Text
  pub username : Text

-- The operator on Ready.
abbrev pub subscribe_request : Text
subscribe_request = codes "{\"jsonrpc\":\"2.0\",\"method\":\"subscribe\",\"id\":\"test\"}"

unfoldable pub on_ready : Method
unfolding emit
on_ready = emit (Output.to_auth subscribe_request)

unfoldable pub find_member : Text → Members → Option Json
find_member k empty = none
find_member k (member j v ms) = if j == k then some v else find_member k ms

unfoldable pub found : Option Json → Result Json
found none = err malformed
found (some v) = ok v

-- json.at(key), which throws where there is no such member.
unfoldable pub at : Text → Json → Result Json
unfolding find_member found
at key (object ms) = found (find_member key ms)
at key _ = err malformed

abbrev pub item_values : Items → List Json
item_values Items.none = []
item_values (Items.more v rest) = v ∷ item_values rest

abbrev pub member_values : Members → List Json
member_values empty = []
member_values (member k v rest) = v ∷ member_values rest

-- What `for (auto &obj : json)` goes through: a value that is no container is its only element.
abbrev pub values : Json → List Json
values null = []
values (array vs) = item_values vs
values (object ms) = member_values ms
values (string t) = string t ∷ []
values (number t) = number t ∷ []

-- A computation that may throw, as an action.
unfoldable pub lift : {A : Type 0} → Result A → World → Result A × World
lift r w = (r, w)

-- get<std::string_view>()
unfoldable pub as_string : Result Json → Result Text
as_string (ok (string t)) = ok t
as_string (ok _) = err malformed
as_string (err e) = err e

-- obj.at(key).template get<std::string_view>()
unfoldable pub string_at : Text → Json → World → Result Text × World
unfolding at as_string lift
string_at key json = lift (as_string (at key json))

unfoldable pub on_insert : Insert → Method
unfolding modify_shared Shared.add_user
on_insert e = modify_shared (Shared.add_user e.username e.password e.strategy_id)

unfoldable pub on_remove : Remove → Method
unfolding modify_shared Shared.remove_user
on_remove e = modify_shared (Shared.remove_user e.username)

module _ ⦃ext : Externals⦄ where
  -- get<uint32_t>()
  unfoldable pub as_uint32 : Result Json → Result ℕ
  as_uint32 (ok (number t)) = ok (ext.json_uint32 t)
  as_uint32 (ok _) = err malformed
  as_uint32 (err e) = err e

  unfoldable pub apply_entry : Text → Text → Text → Json → Method
  unfolding string_at as_uint32 on_insert on_remove
  apply_entry action component username obj =
      if action == codes "insert"
      then (do
        password ← string_at (codes "password") obj
        strategy_id ← lift (as_uint32 (at (codes "strategy_id") obj))
        on_insert (record {
          component = component;
          username = username;
          password = password;
          strategy_id = strategy_id;
        }))
      else if action == codes "remove"
      then on_remove (record { component = component; username = username })
      else skip

  -- One element of the result. The component is read and not looked at.
  unfoldable pub handle_entry : Json → Method
  unfolding string_at apply_entry
  handle_entry obj = do
    action ← string_at (codes "action") obj
    component ← string_at (codes "component") obj
    username ← string_at (codes "username") obj
    apply_entry action component username obj

  unfoldable pub on_json : Option Json → Method
  unfolding handle_entry for_each
  on_json none w = (err malformed, w)
  on_json (some json) w =
      (do result ← lift (at (codes "result") json); for_each (values result) handle_entry) w

  -- The operator on Text.
  unfoldable pub on_text : Text → Method
  unfolding on_json
  on_text payload = on_json (ext.json_parse payload)
