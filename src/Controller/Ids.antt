-- ===== src/Controller/Ids.antt =====
-- The ids of orders and requests that the server gets carry the client's name, and the client's own
-- id can be read off them (create_request_id and get_client_cl_ord_id of controller.cpp).
use roq_fix_proxy.Prelude.{ℕ, ◌≡◌, refl, sym, ◌∙◌, ap, some, ◌++◌}
use mathlib.Core.Option.{some-injective}
use roq_fix_proxy.Prelude.Text.{
  Text, codes, Lacks, Lacks-append, after_first, after_first-append, before_first,
  before_first-append,
}
use roq_fix_proxy.Externals.{Externals, IsDocumented}
use roq_fix_proxy.Controller.Utilities.{client_request_id, get_client_cl_ord_id}

prefix-Lacks : Lacks b':' (codes "proxy-")
prefix-Lacks = (refl, (refl, (refl, (refl, (refl, (refl, tt))))))

module _ (c : Text) (h : Lacks b':' c) where
  named-Lacks : Lacks b':' (codes "proxy-" ++ c)
  named-Lacks = Lacks-append b':' (codes "proxy-") c prefix-Lacks h

  after_client : (x : Text) → after_first b':' (client_request_id c x) ≡ some x
  unfolding client_request_id
  after_client x = after_first-append b':' (codes "proxy-" ++ c) x named-Lacks

  before_client :
      (x : Text) → before_first b':' (client_request_id c x) ≡ some (codes "proxy-" ++ c)
  unfolding client_request_id
  before_client x = before_first-append b':' (codes "proxy-" ++ c) x named-Lacks

-- What the client is shown as its order's id is the id that it sent, where the client's name has no
-- colon, whatever bytes the id itself has.
pub get_client_cl_ord_id-client_request_id :
    (c x : Text) → Lacks b':' c → get_client_cl_ord_id (client_request_id c x) ≡ x
unfolding get_client_cl_ord_id
get_client_cl_ord_id-client_request_id c x h = rw (after_client c h x, get_client_cl_ord_id) refl

same_tail : (c d : Text) → codes "proxy-" ++ c ≡ codes "proxy-" ++ d → c ≡ d
same_tail c d e = cc

-- Two requests have the same id with the server only if the same strategy made both under the same
-- id, where numbers are printed in digits and no two of them alike.
pub client_request_id_injective :
    (ext : Externals)
    → IsDocumented ext
    → (m n : ℕ) (x y : Text)
    → client_request_id (ext.format m) x ≡ client_request_id (ext.format n) y
    → (m ≡ n) × (x ≡ y)
client_request_id_injective ext doc m n x y e = (
  doc.format_injective m n (
      same_tail _ _ (
        some-injective _ _ (
          sym (before_client _ (doc.format_digits m) x)
          ∙ (ap (before_first b':') e ∙ before_client _ (doc.format_digits n) y)))),
  some-injective _ _ (
      sym (after_client _ (doc.format_digits m) x)
      ∙ (ap (after_first b':') e ∙ after_client _ (doc.format_digits n) y)),
)
