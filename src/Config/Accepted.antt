-- ===== src/Config/Accepted.antt =====
-- What a document is like that is accepted as a configuration.
use roq_fix_proxy.Prelude.{
  ◌≡◌, ◌≢◌, ◌⊎◌, inl, inr, refl, Option, none, some, [], if◌then◌else◌, ◌==◌, Bool-cases, arith,
  List,
}
use roq_fix_proxy.Prelude.{subst, ap, ◌∙◌}
use roq_fix_proxy.Prelude.Text.{Text, text_eq, text_beq, text_beq_iff, codes}
use roq_fix_proxy.Prelude.Map.{Map}
use roq_fix_proxy.Externals.{Externals}
use roq_fix_proxy.Config.Toml.{Node, value, array, table, Table, empty, entry}
use roq_fix_proxy.Config.{
  User, Config, Parsed, parsed, malformed, fatal, undefined, ◌>>=◌, find_entry, erase_entry,
  find_and_remove, check_empty, parse_symbols, read_symbols, user_entry, user_from, parse_user,
  users_from, read_users, read_found, parse_users, construct,
}

abbrev pub IsKey : Text → Type 0
IsKey k = (k ≡ codes "symbols") ⊎ (k ≡ codes "users")

abbrev pub IsUserKey : Text → Type 0
IsUserKey k =
    (k ≡ codes "component")
    ⊎ (k ≡ codes "username")
    ⊎ (k ≡ codes "password")
    ⊎ (k ≡ codes "accounts")
    ⊎ (k ≡ codes "strategy_id")

-- A user's table has no other keys.
abbrev pub IsUser : Node → Type 0
IsUser n = (f : Table) × (n ≡ table f) × ((j : Text) → find_entry j f ≢ none → IsUserKey j)

-- A table, with these two sections only.
abbrev pub IsDocument : Node → Type 0
IsDocument n =
    (t : Table) × (m : Node) × (us : Table) × (n ≡ table t)
    × (find_entry (codes "symbols") t ≡ some m)
    × ((s : Table) → m ≢ table s)
    × (find_entry (codes "users") t ≡ some (table us))
    × ((k : Text) → find_entry k t ≢ none → IsKey k)
    × ((k : Text) (u : Node) → find_entry k us ≡ some u → IsUser u)

bind_parsed :
    {A B : Type 0} (m : Parsed A) (f : A → Parsed B) (b : B)
    → (m >>= f) ≡ parsed b
    → (a : A) × (m ≡ parsed a) × (f a ≡ parsed b)
bind_parsed (parsed a) f b e = (a, refl, e)
bind_parsed malformed f b e = absurd cc
bind_parsed fatal f b e = absurd cc
bind_parsed undefined f b e = absurd cc

find_entry-erase_entry :
    (j k : Text) (t : Table)
    → find_entry k (erase_entry j t) ≡ (if j == k then none else find_entry k t)
unfolding find_entry erase_entry
find_entry-erase_entry j k empty = ground arith
find_entry-erase_entry j k (entry i n t) =
    ground
      (arith, find_entry-erase_entry j k t, text_beq_iff i j, text_beq_iff i k, text_beq_iff j k)

find_and_remove_lem :
    (k : Text) (n m r : Node)
    → find_and_remove k n ≡ some (m, r)
    → (t : Table) × (n ≡ table t) × (find_entry k t ≡ some m) × (r ≡ table (erase_entry k t))
unfolding find_and_remove
find_and_remove_lem k (value v) m r e = absurd cc
find_and_remove_lem k (array ns) m r e = absurd cc
find_and_remove_lem k (table t) m r e = (t, refl, ground arith, ground arith)

module _ ⦃ext : Externals⦄ where
  user_entry-IsUserKey :
      (k : Text) (n : Node) (u v : User) → user_entry k n u ≡ parsed v → IsUserKey k
  unfolding user_entry
  user_entry-IsUserKey k n u v e = ground (
    arith,
    text_beq_iff k (codes "component"),
    text_beq_iff k (codes "username"),
    text_beq_iff k (codes "password"),
    text_beq_iff k (codes "accounts"),
    text_beq_iff k (codes "strategy_id"),
  )

  user_from-IsUserKey :
      (t : Table) (u v : User) (j : Text)
      → user_from t u ≡ parsed v
      → find_entry j t ≢ none
      → IsUserKey j
  unfolding user_from find_entry
  user_from-IsUserKey empty u v j e there = absurd (there refl)
  user_from-IsUserKey (entry k n t) u v j e there =
      let (w, first, rest) = bind_parsed (user_entry k n u) (user_from t) v e in
      elim (Bool-cases (k == j)) [
        | inl same ↦ rw (← (text_beq_iff k j).0 same) (user_entry-IsUserKey k n u w first)
        | inr more ↦ user_from-IsUserKey t w v j rest (λ x. there (rw more x))
      ]

  users_from-IsUser :
      (t : Table) (acc r : Map Text User) (k : Text) (m : Node)
      → users_from t acc ≡ parsed r
      → find_entry k t ≡ some m
      → IsUser m
  unfolding users_from find_entry parse_user
  users_from-IsUser empty acc r k m e there = absurd cc
  users_from-IsUser (entry j (value v) t) acc r k m e there = absurd cc
  users_from-IsUser (entry j (array ns) t) acc r k m e there = absurd cc
  users_from-IsUser (entry j (table f) t) acc r k m e there =
      let (u, first, rest) = bind_parsed (parse_user f) _ r e in
      elim (Bool-cases (j == k)) [
        | inl same ↦ (f, ground (arith, same, there), λ i h. user_from-IsUserKey f _ u i first h)
        | inr more ↦ users_from-IsUser t _ r k m rest (ground (arith, more, there))
      ]

abbrev Found : {A : Type 0} → Text → (Node → Parsed A) → Node → A → Node → Type 0
Found k read n a r =
    (t : Table) × (m : Node) × (n ≡ table t)
    × (find_entry k t ≡ some m)
    × (read m ≡ parsed a)
    × (r ≡ table (erase_entry k t))

read_found-Found :
    {A : Type 0} (k : Text) (read : Node → Parsed A) (n r : Node) (a : A) (o : Option (Node × Node))
    → find_and_remove k n ≡ o
    → read_found read o ≡ parsed (a, r)
    → Found k read n a r
unfolding read_found
read_found-Found k read n r a none e h = absurd cc
read_found-Found k read n r a (some (m, rest)) e h =
    let (x, first, last) = bind_parsed (read m) (λ x. parsed (x, rest)) (a, r) h in
    let (t, is, there, left) = find_and_remove_lem k n m rest e in
    (t, m, is, there, first ∙ (cc), (cc))

check_empty_lem : (t : Table) (x : Unit {0}) → check_empty (table t) ≡ parsed x → t ≡ empty
unfolding check_empty
check_empty_lem empty x e = refl
check_empty_lem (entry k n t) x e = absurd cc

read_symbols-ne-table :
    (m : Node) (ss : List Text) → read_symbols m ≡ parsed ss → (s : Table) → m ≢ table s
unfolding read_symbols
read_symbols-ne-table (value v) ss e s = cc
read_symbols-ne-table (array ns) ss e s = cc
read_symbols-ne-table (table t) ss e s = absurd cc

-- Where both sections are taken out and nothing is left, there was no other key.
erased-IsKey :
    (t : Table) (k : Text)
    → erase_entry (codes "users") (erase_entry (codes "symbols") t) ≡ empty
    → find_entry k t ≢ none
    → IsKey k
unfolding find_entry
erased-IsKey t k e there = ground (
  arith,
  find_entry-erase_entry (codes "users") k (erase_entry (codes "symbols") t),
  find_entry-erase_entry (codes "symbols") k t,
  ap (find_entry k) e,
  text_beq_iff (codes "users") k,
  text_beq_iff (codes "symbols") k,
)

module _ ⦃ext : Externals⦄ where
  read_users-IsUser :
      (m : Node) (r : Map Text User)
      → read_users m ≡ parsed r
      → (us : Table) × (m ≡ table us)
        × ((k : Text) (u : Node) → find_entry k us ≡ some u → IsUser u)
  unfolding read_users
  read_users-IsUser (value v) r e = absurd cc
  read_users-IsUser (array ns) r e = absurd cc
  read_users-IsUser (table us) r e = (us, refl, λ k u h. users_from-IsUser us [] r k u e h)

  sections :
      (n rest left : Node) (ss : List Text) (us : Map Text User) (x : Unit {0})
      → Found (codes "symbols") read_symbols n ss rest
      → Found (codes "users") read_users rest us left
      → check_empty left ≡ parsed x
      → IsDocument n
  unfolding find_entry text_beq
  sections n rest left ss us x (t, m, is, there, reads, gone) (t', m', is', there', reads', gone')
        h =
      let same : t' ≡ erase_entry (codes "symbols") t = cc in
      let (users, table_of, each) = read_users-IsUser m' us reads' in
      let nothing : erase_entry (codes "users") t' ≡ empty =
        check_empty_lem _ x (subst (λ l. check_empty l ≡ parsed x) gone' h) in
      (
        t,
        m,
        users,
        is,
        there,
        read_symbols-ne-table m ss reads,
        ground (
          arith,
          find_entry-erase_entry (codes "symbols") (codes "users") t,
          same,
          there',
          table_of,
        ),
        λ k. erased-IsKey t k (rw (← same) nothing),
        each,
      )

  -- A document that is accepted as a configuration is a table that has the symbols, which are no
  -- table, and the users, a table of tables, and has no other key; nor has the table of a user
  -- another key than component, username, password, accounts and strategy_id.
  pub construct-IsDocument : (n : Node) (c : Config) → construct n ≡ parsed c → IsDocument n
  unfolding construct parse_symbols parse_users
  construct-IsDocument n c e =
      let ((symbols, rest), first, e1) = bind_parsed (parse_symbols n) _ c e in
      let ((users, left), second, e2) = bind_parsed (parse_users rest) _ c e1 in
      let (x, third, e3) = bind_parsed (check_empty left) _ c e2 in
      sections n rest left symbols users x
        (read_found-Found (codes "symbols") read_symbols n rest symbols _ refl first)
        (read_found-Found (codes "users") read_users rest left users _ refl second) third
