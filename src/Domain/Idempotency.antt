-- ===== src/Domain/Idempotency.antt =====
-- internal/domain/idempotency.go. SHA-256, decimal printing and the text of a UUID are Go's and
-- google/uuid's: the fields of `Digest`.
use envoy_trade.Common.{ℕ, String, slice, str_append}
use envoy_trade.Domain.Types.{Uuid}

pub record Digest : Type 0 where
  -- the hexadecimal SHA-256 of a text
  pub hex_sha256 : String → String
  pub decimal : ℕ → String
  pub uuid_text : Uuid → String

abbrev pub idempotency_tag_len : ℕ
idempotency_tag_len = 20

unfoldable pub idempotency_tag : Digest → ℕ → Uuid → String
idempotency_tag D master_fill_id follower_id =
    let key = str_append (D.decimal master_fill_id) (str_append ":" (D.uuid_text follower_id)) in
    slice (D.hex_sha256 key) 0 idempotency_tag_len
