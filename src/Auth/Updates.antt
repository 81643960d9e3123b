-- ===== src/Auth/Updates.antt =====
-- The users after a message of the authentication service.
use roq_fix_proxy.Prelude.{
  ℕ, ◌^◌, ◌<◌, ◌≡◌, refl, ◌∙◌, Option, none, some, List, [], ◌∷◌, ◌==◌, if◌then◌else◌,
}
use roq_fix_proxy.Prelude.Text.{Text, text_eq, text_beq, codes}
use roq_fix_proxy.Prelude.Map.{Map, find, find-assign, find-erase}
use roq_fix_proxy.Prelude.Effect.{ok, err, malformed, ◌>>=◌, ◌>>◌, skip, for_each}
use roq_fix_proxy.Externals.{Externals}
use roq_fix_proxy.Shared.{Shared, add_user, remove_user}
use roq_fix_proxy.World.{World}
use roq_fix_proxy.Auth.Json.{Json, string, number, array, object, Items, empty, member}
use roq_fix_proxy.Auth.Session.{handle_entry, on_text, item_values, at}

-- A change of a user, and how the service writes it.
pub data Update : Type 0 where
  insert : Text → Text → Text → ℕ → Update
  remove : Text → Text → Update

abbrev pub entry_of : (ℕ → Text) → Update → Json
entry_of print (insert component username password strategy_id) = object (
    member (codes "action") (string (codes "insert")) (
      member (codes "component") (string component) (
        member (codes "username") (string username) (
          member (codes "password") (string password)
            (member (codes "strategy_id") (number (print strategy_id)) empty)))))
entry_of print (remove component username) = object (
    member (codes "action") (string (codes "remove")) (
      member (codes "component") (string component)
        (member (codes "username") (string username) empty)))

abbrev pub IsWord : Update → Type 0
IsWord (insert component username password strategy_id) = strategy_id < 2 ^ 32
IsWord (remove component username) = Unit {0}

abbrev pub AreWords : List Update → Type 0
AreWords [] = Unit {0}
AreWords (u ∷ us) = IsWord u × AreWords us

-- The updates, then whatever follows.
abbrev pub items : (ℕ → Text) → List Update → Items → Items
items print [] rest = rest
items print (u ∷ us) rest = Items.more (entry_of print u) (items print us rest)

-- What is known of a user: what the last update that names the user says.
abbrev pub latest : Text → List Update → Option (Text × ℕ) → Option (Text × ℕ)
latest name [] before = before
latest name (insert c username password strategy_id ∷ us) before =
    latest name us (if username == name then some (password, strategy_id) else before)
latest name (remove c username ∷ us) before =
    latest name us (if username == name then none else before)

abbrev update : Update → Shared → Shared
update (insert c username password strategy_id) s = add_user username password strategy_id s
update (remove c username) s = remove_user username s

abbrev pub updated : List Update → World → World
updated [] w = w
updated (u ∷ us) w = updated us (record w { shared = update u w.shared })

abbrev pub users_of : World → Map Text (Text × ℕ)
users_of w = w.shared.username_to_password_and_strategy_id

-- The world with other users, and nothing else changed.
abbrev pub with_users : Map Text (Text × ℕ) → World → World
with_users m w = record w { shared = record w.shared { username_to_password_and_strategy_id = m } }

find-update :
    (name : Text) (u : Update) (us : List Update) (s : Shared)
    → latest name us (find name (update u s).username_to_password_and_strategy_id)
      ≡ latest name (u ∷ us) (find name s.username_to_password_and_strategy_id)
unfolding add_user remove_user
find-update name (insert c username password i) us s =
    rw (find-assign username name (password, i) s.username_to_password_and_strategy_id) refl
find-update name (remove c username) us s =
    rw (find-erase username name s.username_to_password_and_strategy_id) refl

find-updated :
    (name : Text) (us : List Update) (w : World)
    → find name (users_of (updated us w)) ≡ latest name us (find name (users_of w))
find-updated name [] w = refl
find-updated name (u ∷ us) w =
    find-updated name us (record w { shared = update u w.shared }) ∙ find-update name u us w.shared

updated-with_users :
    (us : List Update) (w : World) → updated us w ≡ with_users (users_of (updated us w)) w
unfolding add_user remove_user
updated-with_users [] w = refl
updated-with_users (insert c username password i ∷ us) w = updated-with_users us _
updated-with_users (remove c username ∷ us) w = updated-with_users us _

module _ ⦃ext : Externals⦄ (print : ℕ → Text)
    (reads : (n : ℕ) → n < 2 ^ 32 → ext.json_uint32 (print n) ≡ n) where
  handle_entry-entry_of :
      (u : Update) (w : World)
      → IsWord u
      → handle_entry (entry_of print u) w ≡ (ok tt, record w { shared = update u w.shared })
  unfolding handle_entry ◌>>=◌ text_beq
  handle_entry-entry_of (insert c username password i) w h = rw (reads i h) refl
  handle_entry-entry_of (remove c username) w h = refl

  loop :
      (us : List Update) (rest : Items) (w : World)
      → AreWords us
      → for_each (item_values (items print us rest)) handle_entry w
        ≡ for_each (item_values rest) handle_entry (updated us w)
  unfolding for_each ◌>>◌
  loop [] rest w h = refl
  loop (u ∷ us) rest w h =
      rw (handle_entry-entry_of u w h.0)
        (loop us rest (record w { shared = update u w.shared }) h.1)

  module _ (text : Text) (json : Json) (us : List Update) (rest : Items) (w : World)
      (parses : ext.json_parse text ≡ some json)
      (result : at (codes "result") json ≡ ok (array (items print us rest)))
      (words : AreWords us) where
    on_text-loop : on_text text w ≡ for_each (item_values rest) handle_entry (updated us w)
    unfolding on_text ◌>>=◌
    on_text-loop = rw (parses, result) (loop us rest w words)

  -- A message of the authentication service that is a list of updates: it is taken, each user is known
  -- afterwards by what the last update that names the user says, or as before if none does, and
  -- nothing else changes.
  pub on_text-Latest :
      (text : Text) (json : Json) (us : List Update) (w : World)
      → ext.json_parse text ≡ some json
      → at (codes "result") json ≡ ok (array (items print us Items.none))
      → AreWords us
      → ((on_text text w).0 ≡ ok tt)
        × ((name : Text)
            → find name (users_of (on_text text w).1) ≡ latest name us (find name (users_of w)))
        × ((on_text text w).1 ≡ with_users (users_of (on_text text w).1) w)
  unfolding for_each skip
  on_text-Latest text json us w parses result words =
      rw (on_text-loop text json us Items.none w parses result words)
        (refl, (λ name. find-updated name us w), updated-with_users us w)

  -- A message of the authentication service that is a list of updates with an entry among them that
  -- has no action: it is refused by an exception, and the updates before that entry, and no others,
  -- have been made.
  pub on_text-Partial :
      (text : Text) (json bad : Json) (us : List Update) (rest : Items) (w : World)
      → ext.json_parse text ≡ some json
      → at (codes "result") json ≡ ok (array (items print us (Items.more bad rest)))
      → at (codes "action") bad ≡ err malformed
      → AreWords us
      → ((on_text text w).0 ≡ err malformed)
        × ((name : Text)
            → find name (users_of (on_text text w).1) ≡ latest name us (find name (users_of w)))
        × ((on_text text w).1 ≡ with_users (users_of (on_text text w).1) w)
  unfolding for_each ◌>>◌ ◌>>=◌ handle_entry
  on_text-Partial text json bad us rest w parses result none_there words =
      rw (on_text-loop text json us (Items.more bad rest) w parses result words, none_there)
        (refl, (λ name. find-updated name us w), updated-with_users us w)
