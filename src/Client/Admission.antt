-- ===== src/Client/Admission.antt =====
-- Which logons get as far as the check of the password (client/session.cpp, Logon).
use roq_fix_proxy.Prelude.{◌≡◌, ◌↔◌, ◌≤◌, ◌*◌, refl, true, none, arith}
use roq_fix_proxy.Prelude.Text.{text_eq, text_beq_iff}
use roq_fix_proxy.Message.Enums.{EncryptMethod}
use roq_fix_proxy.Message.Response.{Logon}
use roq_fix_proxy.Shared.{ClientSettings}
use roq_fix_proxy.World.{Header}
use roq_fix_proxy.Client.Logon.{invalid_logon, is_none}

-- What the fields of a logon have to be.
pub record IsAdmissible (settings : ClientSettings) (header : Header) (logon : Logon) : Type 0 where
  pub target : header.target_comp_id ≡ settings.comp_id
  pub encryption : logon.encrypt_method ≡ EncryptMethod.none
  pub not_too_often : settings.logon_heartbeat_min ≤ logon.heart_bt_int * 1000000000
  pub not_too_seldom : logon.heart_bt_int * 1000000000 ≤ settings.logon_heartbeat_max
  pub resets : logon.reset_seq_num_flag ≡ true

is_none_iff : (e : EncryptMethod) → (is_none e ≡ true) ↔ (e ≡ EncryptMethod.none)
unfolding is_none
is_none_iff EncryptMethod.none = ((λ h. refl), (λ h. refl))
is_none_iff (EncryptMethod.other n) = ((λ h. absurd cc), (λ h. absurd cc))

-- The fields of a logon are accepted exactly if the client names the proxy, does not ask for an
-- encryption, has an interval of heartbeats within the bounds of the settings and asks for the
-- sequence numbers to be reset.
pub invalid_logon-iff-IsAdmissible :
    (settings : ClientSettings) (header : Header) (logon : Logon)
    → (invalid_logon settings header logon ≡ none) ↔ IsAdmissible settings header logon
unfolding invalid_logon
invalid_logon-iff-IsAdmissible settings header logon = (
  (λ h. record {
    target = ground (arith, text_beq_iff header.target_comp_id settings.comp_id);
    encryption = ground (arith, is_none_iff logon.encrypt_method);
    not_too_often = ground arith;
    not_too_seldom = ground arith;
    resets = ground arith;
  }),
  (λ v. ground (
    arith,
    text_beq_iff header.target_comp_id settings.comp_id,
    is_none_iff logon.encrypt_method,
    v.target,
    v.encryption,
    v.not_too_often,
    v.not_too_seldom,
    v.resets,
  )),
)
