-- ===== src/Externals.antt =====
-- What the program calls and does not implement: fmt, roq::utils, roq::utils::codec::Base64, the
-- HMAC of roq::utils::mac, the checks of roq::codec::fix, toml++ and nlohmann::json. The laws are those that
-- the documentation of these libraries states.
use roq_fix_proxy.Prelude.{ℕ, ◌≡◌, Bool, true, Option}
use roq_fix_proxy.Prelude.Text.{Text, Lacks}
use roq_fix_proxy.Message.Enums.{OrdStatus}
use roq_fix_proxy.Config.Toml.{Scalar, Node}
use roq_fix_proxy.Auth.Json.{Json}
use roq_fix_proxy.Message.Request.{Request}

-- A signed number of 64 bits; `negsuc n` is -(n + 1).
pub data ℤ : Type 0 where
  pos : ℕ → ℤ
  negsuc : ℕ → ℤ

pub record Externals : Type 0 where
  -- fmt::format("{}", n) of an unsigned integer
  pub format : ℕ → Text
  -- fmt::format("{}", t) of std::chrono::nanoseconds
  pub format_nanoseconds : ℕ → Text
  -- utils::codec::Base64::is_valid(text, true)
  pub base64_is_valid : Text → Bool
  -- utils::codec::Base64::encode(_, digest, false, false)
  pub base64_encode : Text → Text
  -- MAC mac{secret}; mac.update(raw_data); mac.final(_)
  pub hmac_sha256 : Text → Text → Text
  -- utils::from_chars<int64_t>, which throws where the text is no number
  pub from_chars : Text → Option ℤ
  -- utils::regex::Pattern{regex}.match(text)
  pub regex_match : Text → Text → Bool
  -- utils::is_order_complete(roq::fix::map(ord_status))
  pub is_order_complete : OrdStatus → Bool
  -- is_valid() of a decoded request
  pub is_valid : Request → Bool
  -- toml::parse(text), which throws where the text is no TOML
  pub toml_parse : Text → Option Node
  -- value<uint32_t>() of a value
  pub toml_uint32 : Scalar → Option ℕ
  -- nlohmann::json::parse(text), which throws where the text is no JSON
  pub json_parse : Text → Option Json
  -- get<uint32_t>() of a number or a boolean
  pub json_uint32 : Text → ℕ

-- An integer is printed in digits, and the web-safe alphabet of Base64 has no colon.
pub record IsDocumented (ext : Externals) : Type 0 where
  pub format_digits : (n : ℕ) → Lacks b':' (ext.format n)
  pub format_injective : (m n : ℕ) → ext.format m ≡ ext.format n → m ≡ n
  pub base64_alphabet : (t : Text) → ext.base64_is_valid t ≡ true → Lacks b':' t
