-- ===== src/Crypto.antt =====
-- The check of a client's password (src/roq/proxy/fix/tools/crypto.{hpp,cpp}). The clock's reading
-- is an argument. Times are nanoseconds in int64_t, whose wrap-around is written out, as compiled.
pub mod Acceptance
use roq_fix_proxy.Prelude.{
  ℕ, suc, ◌+◌, ◌-◌, ◌*◌, ◌%◌, ◌^◌, Bool, true, false, Option, none, some, ltb, ◌==◌, if◌then◌else◌,
}
use roq_fix_proxy.Prelude.Text.{Text, text_eq, codes, is_empty, before_first}
use roq_fix_proxy.Prelude.Effect.{Result, ok, err, malformed, fatal}
use roq_fix_proxy.Externals.{Externals, ℤ, pos, negsuc}

pub data Method : Type 0 where
  undefined hmac_sha256 hmac_sha256_ts : Method

pub record Crypto : Type 0 where
  pub method : Method
  pub timestamp_tolerance : ℕ

unfoldable pub parse_method : Text → Result Method
parse_method auth_method =
    if is_empty auth_method
    then ok Method.undefined
    else if auth_method == codes "hmac_sha256"
    then ok Method.hmac_sha256
    else if auth_method == codes "hmac_sha256_ts"
    then ok Method.hmac_sha256_ts
    else err fatal

-- The int64_t that holds a number: what is left of it in two's complement of 64 bits.
unfoldable pub int64 : ℤ → ℤ
int64 (pos n) =
    if ltb (n % 2 ^ 64) (2 ^ 63) then pos (n % 2 ^ 64) else negsuc (2 ^ 64 - suc (n % 2 ^ 64))
int64 (negsuc n) =
    if ltb (n % 2 ^ 64) (2 ^ 63) then negsuc (n % 2 ^ 64) else pos (2 ^ 64 - suc (n % 2 ^ 64))

-- std::chrono::milliseconds{tmp} as nanoseconds
unfoldable pub nanoseconds : ℤ → ℤ
unfolding int64
nanoseconds (pos n) = int64 (pos (n * 1000000))
nanoseconds (negsuc n) = int64 (negsuc (suc n * 1000000 - 1))

-- `sending_time_utc < now ? (now - sending_time_utc) : (sending_time_utc - now)`, where `now` is not
-- negative
unfoldable pub difference : ℤ → ℕ → ℤ
unfolding int64
difference (pos t) now = pos (if ltb t now then now - t else t - now)
difference (negsuc t) now = int64 (pos (now + suc t))

-- `diff > timestamp_tolerance`, where the tolerance is not negative
unfoldable pub exceeds : ℤ → ℕ → Bool
exceeds (pos d) tolerance = ltb tolerance d
exceeds (negsuc d) tolerance = false

module _ ⦃ext : Externals⦄ where
  open ext use {base64_encode, hmac_sha256 as hmac, from_chars}

  unfoldable pub signature : Text → Text → Text
  signature secret raw_data = base64_encode (hmac secret raw_data)

  -- HMAC_SHA256_TS, behind the period of raw_data
  unfoldable pub validate_ts : Crypto → ℕ → Text → Text → Text → Text → Result Bool
  unfolding nanoseconds difference exceeds signature
  validate_ts c now password secret raw_data digits = elim (from_chars digits) [
    | none ↦ err malformed
    | some tmp ↦
        if exceeds (difference (nanoseconds tmp) now) c.timestamp_tolerance
        then ok false
        else ok (signature secret raw_data == password)
  ]

  unfoldable pub validate_method : Method → Crypto → ℕ → Text → Text → Text → Result Bool
  unfolding signature
  validate_method Method.undefined c now password secret raw_data = ok (password == secret)
  validate_method Method.hmac_sha256 c now password secret raw_data =
      ok (signature secret raw_data == password)
  validate_method Method.hmac_sha256_ts c now password secret raw_data =
      elim (before_first b'.' raw_data) [
        | none ↦ ok false
        | some digits ↦ validate_ts c now password secret raw_data digits
      ]

  unfoldable pub validate : Crypto → ℕ → Text → Text → Text → Result Bool
  unfolding validate_method
  validate c now password secret raw_data = validate_method c.method c now password secret raw_data
