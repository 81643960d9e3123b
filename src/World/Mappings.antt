-- ===== src/World/Mappings.antt =====
-- The ten mappings of subscriptions_ by name, for the code that takes a reference to one of them.
use roq_fix_proxy.Prelude.{◌≡◌, refl, Bool, true, false}
use roq_fix_proxy.Mapping.{Mapping}
use roq_fix_proxy.Mapping.Routing.{IsRouted}
use roq_fix_proxy.World.{Subscriptions, Users}

pub data MappingName : Type 0 where
  security security_status trad_ses md ord_status mass_status pos trade cl_ord mass_cancel :
      MappingName

abbrev pub get : MappingName → Subscriptions → Mapping
get security s = s.security_req_id
get security_status s = s.security_status_req_id
get trad_ses s = s.trad_ses_req_id
get md s = s.md_req_id
get ord_status s = s.ord_status_req_id
get mass_status s = s.mass_status_req_id
get pos s = s.pos_req_id
get trade s = s.trade_request_id
get cl_ord s = s.cl_ord_id
get mass_cancel s = s.mass_cancel_cl_ord_id

abbrev pub put : MappingName → Mapping → Subscriptions → Subscriptions
put security m s = record s { security_req_id = m }
put security_status m s = record s { security_status_req_id = m }
put trad_ses m s = record s { trad_ses_req_id = m }
put md m s = record s { md_req_id = m }
put ord_status m s = record s { ord_status_req_id = m }
put mass_status m s = record s { mass_status_req_id = m }
put pos m s = record s { pos_req_id = m }
put trade m s = record s { trade_request_id = m }
put cl_ord m s = record s { cl_ord_id = m }
put mass_cancel m s = record s { mass_cancel_cl_ord_id = m }

-- Where a client may leave its request id out (`note! optional`).
abbrev pub is_optional : MappingName → Bool
is_optional ord_status = true
is_optional _ = false

pub get-put_self : (n : MappingName) (m : Mapping) (s : Subscriptions) → get n (put n m s) ≡ m
get-put_self security m s = refl
get-put_self _ m s = refl

-- What is written to one mapping concerns that mapping only.
module _ (P : MappingName → Mapping → Type 0) (m : Mapping) (s : Subscriptions)
    (v : (k : MappingName) → P k (get k s)) where
  pub put-each : (n k : MappingName) → P n m → P k (get k (put n m s))
  put-each security security h = h
  put-each security k h = v k
  put-each security_status security_status h = h
  put-each security_status k h = v k
  put-each trad_ses trad_ses h = h
  put-each trad_ses k h = v k
  put-each md md h = h
  put-each md k h = v k
  put-each ord_status ord_status h = h
  put-each ord_status k h = v k
  put-each mass_status mass_status h = h
  put-each mass_status k h = v k
  put-each pos pos h = h
  put-each pos k h = v k
  put-each trade trade h = h
  put-each trade k h = v k
  put-each cl_ord cl_ord h = h
  put-each cl_ord k h = v k
  put-each mass_cancel mass_cancel h = h
  put-each mass_cancel k h = v k

-- Every mapping has its invariant.
pub record AllRouted (s : Subscriptions) : Type 0 where
  pub at : (n : MappingName) → IsRouted (is_optional n) (get n s)

pub put-AllRouted :
    (m : Mapping) (s : Subscriptions)
    → AllRouted s
    → (n : MappingName) → IsRouted (is_optional n) m
    → AllRouted (put n m s)
put-AllRouted m s v n h = record {
  at = λ k. put-each (λ k m. IsRouted (is_optional k) m) m s v.at n k h;
}

pub get-with_user :
    (n : MappingName) (u : Users) (s : Subscriptions) → get n (record s { user = u }) ≡ get n s
get-with_user security u s = refl
get-with_user security_status u s = refl
get-with_user trad_ses u s = refl
get-with_user md u s = refl
get-with_user ord_status u s = refl
get-with_user mass_status u s = refl
get-with_user pos u s = refl
get-with_user trade u s = refl
get-with_user cl_ord u s = refl
get-with_user mass_cancel u s = refl

pub user-put : (n : MappingName) (m : Mapping) (s : Subscriptions) → (put n m s).user ≡ s.user
user-put security m s = refl
user-put security_status m s = refl
user-put trad_ses m s = refl
user-put md m s = refl
user-put ord_status m s = refl
user-put mass_status m s = refl
user-put pos m s = refl
user-put trade m s = refl
user-put cl_ord m s = refl
user-put mass_cancel m s = refl
