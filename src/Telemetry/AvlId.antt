-- ===== src/Telemetry/AvlId.antt =====
-- `AVL_ID` of packages/teltonika/src/io-map.ts, the ids that are read.
use express_monorepo_bank_te.Base.{ℕ}

abbrev pub total_odometer : ℕ
total_odometer = 16

abbrev pub fuel_level_obd_pct : ℕ
fuel_level_obd_pct = 48

abbrev pub external_voltage : ℕ
external_voltage = 66

abbrev pub battery_voltage : ℕ
battery_voltage = 67

abbrev pub fuel_level_can_liters : ℕ
fuel_level_can_liters = 84

abbrev pub fuel_level_can_pct : ℕ
fuel_level_can_pct = 89

abbrev pub fuel_level_lls1 : ℕ
fuel_level_lls1 = 201

abbrev pub fuel_level_lls2 : ℕ
fuel_level_lls2 = 203

abbrev pub ignition : ℕ
ignition = 239

abbrev pub movement : ℕ
movement = 240
