-- ===== src/Examples/Inputs.antt =====
-- The theorems on the configuration file, the authentication service and the start at concrete inputs.
use roq_fix_proxy.Prelude.{ℕ, ◌≡◌, ◌<◌, ◌^◌, refl, ap, some, [], ◌∷◌, arith}
use mathlib.Core.Option.{map}
use roq_fix_proxy.Prelude.Text.{Text, codes, text_beq, text_eq}
use roq_fix_proxy.Prelude.Map.{find, try_emplace}
use roq_fix_proxy.Crypto.{parse_method}
use roq_fix_proxy.Prelude.Effect.{ok, err, malformed}
use roq_fix_proxy.Config.{Config, parsed, construct}
use roq_fix_proxy.Config.Toml.{Scalar, other}
use roq_fix_proxy.Config.Reading.{document, elem, without_accounts, construct-document}
use roq_fix_proxy.Config.Accepted.{IsDocument, construct-IsDocument}
use roq_fix_proxy.Auth.Json.{Json, Items}
use roq_fix_proxy.Auth.Session.{on_text, at}
use roq_fix_proxy.Auth.Updates.{latest, users_of, with_users, on_text-Latest, on_text-Partial}
use roq_fix_proxy.World.{ClientState}
use roq_fix_proxy.Startup.{start}
use roq_fix_proxy.Startup.Initial.{IsInitial, start-IsInitial}
use roq_fix_proxy.Examples.Data.{
  ones, count-ones, plain, settings, world, two_updates, two_updates_list, broken, one_update_list,
  config, clock, started,
}

abbrev number : ℕ → Scalar
number n = other (ones n)

reads : (n : ℕ) → n < 2 ^ 32 → plain.toml_uint32 (number n) ≡ some n
reads n h = ap some (count-ones n)

reads_json : (n : ℕ) → n < 2 ^ 32 → plain.json_uint32 (ones n) ≡ n
reads_json n h = count-ones n

construct-document_example :
    (d : Config) × (construct (document number config) ≡ parsed d)
    × ((t : Text) → elem t d.symbols ≡ elem t config.symbols)
    × ((k : Text) → find k d.users ≡ map without_accounts (find k config.users))
construct-document_example = construct-document number reads config (omega arith, tt)

construct-IsDocument_example : IsDocument (document number config)
unfolding construct text_beq try_emplace
construct-IsDocument_example = construct-IsDocument (document number config) config refl

on_text-Latest_example :
    let w = world ClientState.ready in
    ((on_text [] w).0 ≡ ok tt)
    × ((name : Text)
        → find name (users_of (on_text [] w).1)
          ≡ latest name two_updates_list (find name (users_of w)))
    × ((on_text [] w).1 ≡ with_users (users_of (on_text [] w).1) w)
unfolding at text_beq
on_text-Latest_example =
    on_text-Latest ones reads_json [] two_updates two_updates_list (world ClientState.ready) refl
      refl (omega arith, (tt, (omega arith, tt)))

on_text-Partial_example :
    let w = world ClientState.ready in
    let t = codes "x" in
    ((on_text t w).0 ≡ err malformed)
    × ((name : Text)
        → find name (users_of (on_text t w).1)
          ≡ latest name one_update_list (find name (users_of w)))
    × ((on_text t w).1 ≡ with_users (users_of (on_text t w).1) w)
unfolding at text_beq
on_text-Partial_example =
    on_text-Partial ones reads_json (codes "x") broken Json.null one_update_list Items.none
      (world ClientState.ready) refl refl refl (omega arith, tt)

start-IsInitial_example : ((uri : Text) × (codes "tcp" ∷ [] ≡ uri ∷ [])) × IsInitial config started
unfolding start parse_method
start-IsInitial_example = start-IsInitial settings config (codes "tcp" ∷ []) clock started refl
