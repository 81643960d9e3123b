-- ===== src/Crypto/Acceptance.antt =====
-- Which passwords are accepted.
use roq_fix_proxy.Prelude.{
  ℕ, suc, ◌+◌, ◌-◌, ◌*◌, ◌%◌, ◌^◌, ◌<◌, ◌≤◌, ◌≡◌, ◌↔◌, true, false, some, arith, inl, inr,
  Option-cases,
}
use roq_fix_proxy.Prelude.Text.{Text, text_eq, text_beq_iff, before_first}
use roq_fix_proxy.Prelude.Effect.{ok}
use roq_fix_proxy.Externals.{Externals, ℤ, pos, negsuc}
use roq_fix_proxy.Crypto.{
  Crypto, Method, int64, nanoseconds, difference, exceeds, signature, validate_ts, validate_method,
  validate,
}

-- A time stamp in milliseconds is at most `tolerance` nanoseconds away from `now`.
abbrev pub Near : ℕ → ℕ → ℤ → Type 0
Near tolerance now (pos n) = (n * 1000000 ≤ now + tolerance) × (now ≤ n * 1000000 + tolerance)
Near tolerance now (negsuc n) = now + suc n * 1000000 ≤ tolerance

-- The time stamp in nanoseconds, and its distance to `now`, fit an int64_t.
abbrev pub InRange : ℕ → ℤ → Type 0
InRange now (pos n) = n * 1000000 < 2 ^ 63
InRange now (negsuc n) = now + suc n * 1000000 < 2 ^ 63

small_pos : (n : ℕ) → n < 2 ^ 63 → int64 (pos n) ≡ pos n
unfolding int64
small_pos n h = let e : n % 2 ^ 64 ≡ n = omega (arith, h) in rw e (ground (arith, h))

small_negsuc : (n : ℕ) → n < 2 ^ 63 → int64 (negsuc n) ≡ negsuc n
unfolding int64
small_negsuc n h = let e : n % 2 ^ 64 ≡ n = omega (arith, h) in rw e (ground (arith, h))

exceeds-Near :
    (tolerance now : ℕ) (t : ℤ)
    → InRange now t
    → (exceeds (difference (nanoseconds t) now) tolerance ≡ false) ↔ Near tolerance now t
unfolding nanoseconds difference exceeds
exceeds-Near tolerance now (pos n) fits =
    rw (small_pos (n * 1000000) fits) ((λ h. (ground arith, ground arith)), (λ h. ground arith))
exceeds-Near tolerance now (negsuc n) fits =
    let e : suc (suc n * 1000000 - 1) ≡ suc n * 1000000 = omega arith in
    rw
      (
        small_negsuc (suc n * 1000000 - 1) (omega (arith, fits)),
        e,
        small_pos (now + suc n * 1000000) fits,
      )
      ((λ h. ground arith), (λ h. ground arith))

module _ ⦃ext : Externals⦄ where
  -- What makes a password good, method by method.
  abbrev pub Good : Crypto → Method → ℕ → Text → Text → Text → Type 0
  Good c Method.undefined now password secret raw_data = password ≡ secret
  Good c Method.hmac_sha256 now password secret raw_data = signature secret raw_data ≡ password
  Good c Method.hmac_sha256_ts now password secret raw_data =
      (digits : Text) × (tmp : ℤ) × (before_first b'.' raw_data ≡ some digits)
      × (ext.from_chars digits ≡ some tmp)
      × Near c.timestamp_tolerance now tmp
      × (signature secret raw_data ≡ password)

  -- A time stamp that is read from `raw_data` is in range.
  abbrev Fits : ℕ → Text → Type 0
  Fits now raw_data =
      (digits : Text) (tmp : ℤ)
      → before_first b'.' raw_data ≡ some digits
      → ext.from_chars digits ≡ some tmp
      → InRange now tmp

  accepts-ts :
      (c : Crypto) (now : ℕ) (password secret raw_data : Text)
      → Fits now raw_data
      → (validate_method Method.hmac_sha256_ts c now password secret raw_data ≡ ok true)
        ↔ Good c Method.hmac_sha256_ts now password secret raw_data
  unfolding validate_method validate_ts
  accepts-ts c now password secret raw_data fits = (
    (λ h. elim (Option-cases (before_first b'.' raw_data)) [
      | inl absent ↦ absurd (ground (arith, absent))
      | inr (digits, e) ↦ elim (Option-cases (ext.from_chars digits)) [
        | inl absent ↦ absurd (ground (arith, e, absent))
        | inr (tmp, f) ↦ (
          digits,
          tmp,
          e,
          f,
          (exceeds-Near c.timestamp_tolerance now tmp (fits digits tmp e f)).0
              (ground (arith, e, f)),
          ground (arith, e, f, text_beq_iff (signature secret raw_data) password),
        )
      ]
    ]),
    (λ g. ground (
      arith,
      g.2,
      g.3,
      (exceeds-Near c.timestamp_tolerance now g.1 (fits g.0 g.1 g.2 g.3)).1 g.4,
      text_beq_iff (signature secret raw_data) password,
    )),
  )

  accepts-method :
      (m : Method) (c : Crypto) (now : ℕ) (password secret raw_data : Text)
      → Fits now raw_data
      → (validate_method m c now password secret raw_data ≡ ok true)
        ↔ Good c m now password secret raw_data
  unfolding validate_method
  accepts-method Method.undefined c now password secret raw_data fits = (
    (λ h. ground (arith, text_beq_iff password secret)),
    (λ h. ground (arith, text_beq_iff password secret)),
  )
  accepts-method Method.hmac_sha256 c now password secret raw_data fits = (
    (λ h. ground (arith, text_beq_iff (signature secret raw_data) password)),
    (λ h. ground (arith, text_beq_iff (signature secret raw_data) password)),
  )
  accepts-method Method.hmac_sha256_ts c now password secret raw_data fits =
      accepts-ts c now password secret raw_data fits

  -- Where a time stamp that is read from raw_data is in the range in which neither its nanoseconds nor
  -- their distance to the clock overflow an int64_t, `validate` accepts exactly the good passwords: the secret itself where no method is set, the
  -- signature of raw_data under hmac_sha256, and under hmac_sha256_ts that signature where raw_data
  -- begins with a number of milliseconds and a period, at most the tolerance away from the clock.
  pub validate-iff-Good :
      (c : Crypto) (now : ℕ) (password secret raw_data : Text)
      → ((digits : Text) (tmp : ℤ)
          → before_first b'.' raw_data ≡ some digits
          → ext.from_chars digits ≡ some tmp
          → InRange now tmp)
      → (validate c now password secret raw_data ≡ ok true)
        ↔ Good c c.method now password secret raw_data
  unfolding validate
  validate-iff-Good c now password secret raw_data fits =
      accepts-method c.method c now password secret raw_data fits
