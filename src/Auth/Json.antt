-- ===== src/Auth/Json.antt =====
-- The documents of nlohmann::json that the authentication service sends.
use roq_fix_proxy.Prelude.Text.{Text}

mutual
  -- `number` is a number or a boolean, as it is written.
  pub data Json : Type 0 where
    null : Json
    string number : Text → Json
    array : Items → Json
    object : Members → Json

  pub data Items : Type 0 where
    none : Items
    more : Json → Items → Items

  pub data Members : Type 0 where
    empty : Members
    member : Text → Json → Members → Members
