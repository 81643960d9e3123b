-- ===== src/Config/Reading.antt =====
-- What the reading of a configuration gives: every configuration is read back from the document that
-- holds it, and a document that is accepted holds nothing else.
use mathlib.Core.Option.{map}
use roq_fix_proxy.Prelude.{
  ℕ, ◌^◌, ◌<◌, ◌≡◌, refl, ◌∙◌, Bool, false, ◌||◌, none, some, List, [], ◌∷◌, ◌==◌, arith,
}
use roq_fix_proxy.Prelude.Text.{Text, text_eq, text_beq, text_beq_iff, codes}
use roq_fix_proxy.Prelude.Map.{Map, find, try_emplace, find-try_emplace}
use roq_fix_proxy.Externals.{Externals}
use roq_fix_proxy.Config.Toml.{
  Scalar, string, Node, value, array, table, Nodes, Table, empty, entry,
}
use roq_fix_proxy.Config.{
  User, Config, parsed, new_user, emplace, symbols_from, user_from, users_from, construct,
}

-- The document of a configuration. Accounts are not read, so that they are left out.
abbrev text_node : Text → Node
text_node t = value (string t)

abbrev pub symbol_nodes : List Text → Nodes
symbol_nodes [] = Nodes.none
symbol_nodes (s ∷ rest) = Nodes.more (text_node s) (symbol_nodes rest)

abbrev pub user_table : (ℕ → Scalar) → User → Table
user_table number u = entry (codes "component") (text_node u.component) (
    entry (codes "password") (text_node u.password) (
      entry (codes "strategy_id") (value (number u.strategy_id))
        (entry (codes "username") (text_node u.username) empty)))

abbrev pub users_table : (ℕ → Scalar) → Map Text User → Table
users_table number [] = empty
users_table number ((k, u) ∷ rest) = entry k (table (user_table number u)) (users_table number rest)

abbrev pub document : (ℕ → Scalar) → Config → Node
document number c = table (
    entry (codes "symbols") (array (symbol_nodes c.symbols))
      (entry (codes "users") (table (users_table number c.users)) empty))

-- uint32_t strategy_id of every user
abbrev pub HaveWords : Map Text User → Type 0
HaveWords [] = Unit {0}
HaveWords ((k, u) ∷ rest) = (u.strategy_id < 2 ^ 32) × HaveWords rest

abbrev pub elem : Text → List Text → Bool
elem t [] = false
elem t (s ∷ rest) = s == t || elem t rest

abbrev pub without_accounts : User → User
without_accounts u = record u { accounts = [] }

elem-emplace : (t s : Text) (l : List Text) → elem t (emplace s l) ≡ (s == t || elem t l)
unfolding emplace
elem-emplace t s [] = refl
elem-emplace t s (x ∷ l) =
    ground (arith, elem-emplace t s l, text_beq_iff x s, text_beq_iff x t, text_beq_iff s t)

symbols_from-symbol_nodes :
    (l acc : List Text)
    → (r : List Text) × (symbols_from (symbol_nodes l) acc ≡ parsed r)
      × ((t : Text) → elem t r ≡ (elem t acc || elem t l))
unfolding symbols_from
symbols_from-symbol_nodes [] acc = (acc, refl, λ t. ground arith)
symbols_from-symbol_nodes (s ∷ l) acc =
    let (r, e, h) = symbols_from-symbol_nodes l (emplace s acc) in
    (r, e, λ t. h t ∙ ground (arith, elem-emplace t s acc))

module _ ⦃ext : Externals⦄ (number : ℕ → Scalar)
    (reads : (n : ℕ) → n < 2 ^ 32 → ext.toml_uint32 (number n) ≡ some n) where
  user_from-user_table :
      (u : User)
      → u.strategy_id < 2 ^ 32
      → user_from (user_table number u) new_user ≡ parsed (without_accounts u)
  unfolding user_from text_beq
  user_from-user_table u w = rw (reads u.strategy_id w) refl

  users_from-users_table :
      (us acc : Map Text User)
      → HaveWords us
      → (r : Map Text User) × (users_from (users_table number us) acc ≡ parsed r)
        × ((k : Text)
            → find k r
              ≡ elim (find k acc) [ none ↦ map without_accounts (find k us) | some u ↦ some u ])
  unfolding users_from find
  users_from-users_table [] acc w = (acc, refl, λ k. ground arith)
  users_from-users_table ((j, u) ∷ us) acc w =
      let (r, e, h) = users_from-users_table us (try_emplace j (without_accounts u) acc) w.1 in
      (
        r,
        rw (user_from-user_table u w.0) e,
        λ k. h k ∙ ground (arith, find-try_emplace j k (without_accounts u) acc, text_beq_iff j k),
      )

  -- Every configuration whose strategy ids are words of 32 bits is read back from the document that
  -- holds it: the symbols are the same, and under every key stands the same user, less the accounts.
  pub construct-document :
      (c : Config)
      → HaveWords c.users
      → (d : Config) × (construct (document number c) ≡ parsed d)
        × ((t : Text) → elem t d.symbols ≡ elem t c.symbols)
        × ((k : Text) → find k d.users ≡ map without_accounts (find k c.users))
  unfolding construct find text_beq
  construct-document c w =
      let (symbols, e, same) = symbols_from-symbol_nodes c.symbols [] in
      let (users, f, found) = users_from-users_table c.users [] w in
      (record { symbols = symbols; users = users }, rw (e, f) refl, same, found)
