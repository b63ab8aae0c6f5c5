-- ===== src/Base/Outcome.antt =====
-- Calls that may throw: the value, or the error that was thrown.
use mathlib.Core.Path.{◌≡◌, refl}
use mathlib.Core.Bool.{Bool, true, false}

-- The `Error`s of the crypto layer and of the sync engine, one constructor for each message.
pub data Fault : Type 0 where
  invalid_recipient_count ephemeral_key_count_mismatch envelope_too_large : Fault
  malformed_envelope unsupported_envelope_version not_a_recipient : Fault
  malformed_sealed_key low_order_point authentication_failed : Fault
  invalid_uuid uuid_must_be_16_bytes odd_hex invalid_hex invalid_base64 : Fault
  malformed_key_bundle key_bundle_mismatch secrets_must_be_32_bytes weak_kdf invalid_salt : Fault
  invalid_password_change_input : Fault
  that_is_you invalid_key unknown_member unknown_sender invalid_signature header_mismatch
        malformed_payload :
      Fault
  attachments_disabled file_too_large : Fault
  not_signed_in password_too_short key_unlock_failed challenge_expired unauthorized : Fault
  not_ready no_keys_for_member keys_changed request_failed not_editable out_of_fuel : Fault

pub data Outcome {ℓ} (A : Type ℓ) : Type ℓ where
  ok : A → Outcome A
  err : Fault → Outcome A

-- An error ends the chain.
infixl 5 ◌>>=◌ ◌>>◌
abbrev pub ◌>>=◌ {ℓ κ} : {A : Type ℓ} {B : Type κ} → Outcome A → (A → Outcome B) → Outcome B
err fault >>= next = err fault
ok value >>= next = next value

-- `if (!test) throw new Error(…)`
abbrev pub ensure : Bool → Fault → Outcome (Unit {0})
ensure false fault = err fault
ensure true fault = ok tt

abbrev pub ◌>>◌ {ℓ} : {B : Type ℓ} → Outcome (Unit {0}) → Outcome B → Outcome B
check >> next = check >>= λ _. next

module _ {ℓ κ} {A : Type ℓ} {B : Type κ} where
  -- A chain that ends well has a first step that does.
  pub bind_inv :
      {b : B} (first : Outcome A) (next : A → Outcome B)
      → (first >>= next) ≡ ok b
      → (x : A) × (first ≡ ok x) × (next x ≡ ok b)
  bind_inv (err fault) next h = cc
  bind_inv (ok x) next h = (x, refl, h)

-- What follows a passed check.
pub ensure-then {ℓ} :
    {B : Type ℓ} (t : Bool) (e : Fault) (k : Outcome B) {b : B}
    → (ensure t e >> k) ≡ ok b
    → (t ≡ true) × (k ≡ ok b)
ensure-then true e k h = (refl, h)
ensure-then false e k h = cc

pub ok-injective {ℓ} : {A : Type ℓ} {a b : A} → ok a ≡ ok b → a ≡ b
ok-injective h = cc
