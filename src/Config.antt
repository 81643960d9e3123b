-- ===== src/Config.antt =====
-- The reading of the configuration file (src/roq/proxy/fix/config.{hpp,cpp}).
pub mod Toml
pub mod Reading
pub mod Accepted
use roq_fix_proxy.Prelude.{ℕ, Bool, true, false, Option, List, [], ◌∷◌, if◌then◌else◌}
use roq_fix_proxy.Prelude.{◌==◌}
use roq_fix_proxy.Prelude.Text.{Text, text_eq, codes}
use roq_fix_proxy.Prelude.Map.{Map, try_emplace}
use roq_fix_proxy.Externals.{Externals}
use roq_fix_proxy.Config.Toml.{
  Scalar, string, other, Node, value, array, table, Nodes, Table, empty, entry,
}

pub record User : Type 0 where
  pub component : Text
  pub username : Text
  pub password : Text
  pub accounts : Text
  pub strategy_id : ℕ

pub record Config : Type 0 where
  pub symbols : List Text
  pub users : Map Text User

-- `malformed` is the exception of the TOML parser, `fatal` is log::fatal, and `undefined` is the use
-- of an empty std::optional.
pub data Parsed {ℓ} (A : Type ℓ) : Type ℓ where
  parsed : A → Parsed A
  malformed fatal undefined : Parsed A

infixl 5 ◌>>=◌
abbrev pub ◌>>=◌ {ℓ κ} : {A : Type ℓ} {B : Type κ} → Parsed A → (A → Parsed B) → Parsed B
parsed a >>= f = f a
malformed >>= f = malformed
fatal >>= f = fatal
undefined >>= f = undefined

-- *optional
unfoldable pub deref {ℓ} : {A : Type ℓ} → Option A → Parsed A
deref Option.none = undefined
deref (Option.some a) = parsed a

-- node.value<std::string>()
unfoldable pub as_string : Node → Option Text
as_string (value (string t)) = Option.some t
as_string (value (other t)) = Option.none
as_string (array ns) = Option.none
as_string (table t) = Option.none

unfoldable pub find_entry : Text → Table → Option Node
find_entry k empty = Option.none
find_entry k (entry j n t) = if j == k then Option.some n else find_entry k t

unfoldable pub erase_entry : Text → Table → Table
erase_entry k empty = empty
erase_entry k (entry j n t) = let rest = erase_entry k t in if j == k then rest else entry j n rest

-- What is found is returned for the callback, with the node that is left.
unfoldable pub find_and_remove : Text → Node → Option (Node × Node)
unfolding find_entry erase_entry
find_and_remove key (value v) = Option.none
find_and_remove key (array ns) = Option.none
find_and_remove key (table t) = elim (find_entry key t) [
  | Option.none ↦ Option.none
  | Option.some n ↦ Option.some (n, table (erase_entry key t))
]

unfoldable pub check_empty : Node → Parsed (Unit {0})
check_empty (table (entry k n t)) = fatal
check_empty _ = parsed tt

-- result.emplace(symbol) of an unordered set
unfoldable pub emplace : Text → List Text → List Text
emplace symbol [] = symbol ∷ []
emplace symbol (s ∷ rest) =
    let more = emplace symbol rest in if s == symbol then s ∷ rest else s ∷ more

unfoldable pub symbols_from : Nodes → List Text → Parsed (List Text)
unfolding as_string emplace deref
symbols_from Nodes.none result = parsed result
symbols_from (Nodes.more n rest) result = do
  symbol ← deref (as_string n)
  symbols_from rest (emplace symbol result)

unfoldable pub read_symbols : Node → Parsed (List Text)
unfolding symbols_from
read_symbols (value v) = do symbol ← deref (as_string (value v)); parsed (emplace symbol [])
read_symbols (array ns) = symbols_from ns []
read_symbols (table t) = fatal

-- What a section reads, and the node that is left; a section that is not there is fatal.
unfoldable pub read_found {ℓ} :
    {A : Type ℓ} → (Node → Parsed A) → Option (Node × Node) → Parsed (A × Node)
read_found read Option.none = fatal
read_found read (Option.some (n, rest)) = read n >>= λ a. parsed (a, rest)

unfoldable pub parse_symbols : Node → Parsed (List Text × Node)
unfolding find_and_remove read_symbols read_found
parse_symbols node = read_found read_symbols (find_and_remove (codes "symbols") node)

abbrev pub new_user : User
new_user = record { component = []; username = []; password = []; accounts = []; strategy_id = 0 }

module _ ⦃ext : Externals⦄ where
  unfoldable pub as_uint32 : Node → Option ℕ
  as_uint32 (value v) = ext.toml_uint32 v
  as_uint32 (array ns) = Option.none
  as_uint32 (table t) = Option.none

  -- One entry of a user's table.
  unfoldable pub user_entry : Text → Node → User → Parsed User
  unfolding deref as_string as_uint32
  user_entry key n u =
      if key == codes "component"
      then deref (as_string n) >>= (λ t. parsed (record u { component = t }))
      else if key == codes "username"
      then deref (as_string n) >>= (λ t. parsed (record u { username = t }))
      else if key == codes "password"
      then deref (as_string n) >>= (λ t. parsed (record u { password = t }))
      else if key == codes "accounts"
      then parsed u
      else if key == codes "strategy_id"
      then deref (as_uint32 n) >>= (λ i. parsed (record u { strategy_id = i }))
      else fatal

  unfoldable pub user_from : Table → User → Parsed User
  unfolding user_entry
  user_from empty u = parsed u
  user_from (entry key n t) u = user_entry key n u >>= user_from t

  unfoldable pub parse_user : Table → Parsed User
  unfolding user_from
  parse_user t = user_from t new_user

  unfoldable pub users_from : Table → Map Text User → Parsed (Map Text User)
  unfolding parse_user
  users_from empty result = parsed result
  users_from (entry key (table fields) t) result =
      parse_user fields >>= λ user. users_from t (try_emplace key user result)
  users_from (entry key (value v) t) result = fatal
  users_from (entry key (array ns) t) result = fatal

  unfoldable pub read_users : Node → Parsed (Map Text User)
  unfolding users_from
  read_users (table t) = users_from t []
  read_users (value v) = fatal
  read_users (array ns) = fatal

  unfoldable pub parse_users : Node → Parsed (Map Text User × Node)
  unfolding find_and_remove read_users read_found
  parse_users node = read_found read_users (find_and_remove (codes "users") node)

  -- Config::Config: the symbols, the users, and nothing else.
  unfoldable pub construct : Node → Parsed Config
  unfolding parse_symbols parse_users check_empty
  construct node = parse_symbols node >>= λ (symbols, without_symbols).
      parse_users without_symbols >>= λ (users, rest).
      check_empty rest >>= λ _. parsed (record { symbols = symbols; users = users })

  unfoldable pub construct_from : Option Node → Parsed Config
  unfolding construct
  construct_from Option.none = malformed
  construct_from (Option.some root) = construct root

  unfoldable pub parse_text : Text → Parsed Config
  unfolding construct_from
  parse_text text = construct_from (ext.toml_parse text)
