-- ===== src/Sw/Tests.antt =====
-- Runs of src/sw.rs.
use hyperion_x_emv.Base.{◌≡◌, refl, true, false}
use hyperion_x_emv.Sw.{StatusWord, ApduContext, classify, in_context}
use hyperion_x_emv.Sw.Contexts.{ends, is_ok}

abbrev security_status : StatusWord
security_status = record { sw1 = 0x69; sw2 = 0x82 }

script_ends : is_ok (ends (classify (ApduContext.issuer_script true) security_status)) ≡ false
unfolding classify in_context
script_ends = refl
