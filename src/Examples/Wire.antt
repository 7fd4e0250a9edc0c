-- ===== src/Examples/Wire.antt =====
-- Examples of the messages, their codes and the configuration.
use nz.Base.{
  ℕ, zero, suc, ◌<◌, ◌≡◌, ◌↔◌, refl, List, [], ◌∷◌, ◌++◌, All, none, length, arith, lacks,
}
use nz.Netip.{v4}
use nz.Config.{validate}
use nz.Config.Laws.{IsValid, validate_iff}
use nz.Protocol.Signed.{parse_signed, sign_bytes, signature_size}
use nz.Protocol.Signed.Laws.{sign_bytes-parse_signed}
use nz.Protocol.Proof.{proof_text_binds}
use nz.Examples.Data.{zeros, server_config}

zeros-bytes : (n : ℕ) → All (λ b. b < 256) (zeros n)
unfolding zeros
zeros-bytes zero = tt
zeros-bytes (suc n) = (omega arith, zeros-bytes n)

sign_bytes-parse_signed_example :
    (sign_bytes (record { typ = 0; src_ip = v4 0; dst_ip = v4 0; payload = 0 ∷ [] }) ++ zeros 64
      ≡ zeros 74)
    × (length (zeros 64) ≡ signature_size)
unfolding parse_signed zeros
sign_bytes-parse_signed_example =
    sign_bytes-parse_signed (zeros 74)
      (record { typ = 0; src_ip = v4 0; dst_ip = v4 0; payload = 0 ∷ [] }) (zeros 64)
      (zeros-bytes 74) refl

abbrev byte : ℕ → List ℕ
byte n = n ∷ []

proof_text_binds_example :
    (byte 1 ≡ byte 1) × (byte 97 ≡ byte 97) × (byte 98 ≡ byte 98) × (byte 99 ≡ byte 99)
proof_text_binds_example =
    proof_text_binds (byte 1) (byte 97) (byte 98) (byte 99) (byte 1) (byte 97) (byte 98) (byte 99)
      refl ((λ e. cc), tt) ((λ e. cc), tt) ((λ e. cc), tt) ((λ e. cc), tt) refl

validate_iff_example : (validate server_config ≡ none) ↔ IsValid server_config
unfolding lacks
validate_iff_example = validate_iff server_config refl
