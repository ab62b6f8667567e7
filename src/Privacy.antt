-- ===== src/Privacy.antt =====
-- cvc-core/src/privacy.rs: its errors, and the results of the functions that can fail.
pub mod Url
mod Tests
use volute.Bytes.{Bytes}

pub data PrivacyError : Type 0 where
  too_large : PrivacyError
  policy remote consent_state validation : Bytes → PrivacyError

pub data Result {ℓ} (A : Type ℓ) : Type ℓ where
  ok : A → Result A
  err : PrivacyError → Result A
