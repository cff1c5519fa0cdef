-- ===== src/Teltonika/Ack.antt =====
-- packages/teltonika/src/ack.ts
use express_monorepo_bank_te.Base.{ℕ, Bool, Option, List, [], ◌∷◌, if◌then◌else◌}
use express_monorepo_bank_te.Teltonika.Bytes.{write_uint}

-- `buildImeiAck`
abbrev pub build_imei_ack : Bool → List ℕ
build_imei_ack accepted = (if accepted then 1 else 0) ∷ []

-- `buildRecordAck`
unfoldable pub build_record_ack : ℕ → Option (List ℕ)
unfolding write_uint
build_record_ack record_count = write_uint 4 record_count
