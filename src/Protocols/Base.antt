-- ===== src/Protocols/Base.antt =====
-- backend/app/protocols/base.py: what adapters are told of a register, and the counters of a device.
use ghost_meter.Prelude.{ℕ, zero, suc, String, Option, none, some, nat_eq, if◌then◌else◌}
use ghost_meter.Prelude.Int.{pos}
use ghost_meter.Dict.{Dict, put, has}
use ghost_meter.Floats.{Floats}

pub record RegisterInfo : Type 0 where
  pub address : ℕ
  pub function_code : ℕ
  pub data_type : String
  pub byte_order : String
  pub oid : Option String
  pub name : Option String
  pub unit : Option String

pub record DeviceStats (R : Type 0) : Type 0 where
  pub request_count : ℕ
  pub success_count : ℕ
  pub error_count : ℕ
  pub total_response_ms : R

module _ {R : Type 0} ⦃F : Floats R⦄ where
  -- `DeviceStats()`
  abbrev pub new_stats : DeviceStats R
  new_stats = record {
    request_count = 0;
    success_count = 0;
    error_count = 0;
    total_response_ms = F.literal 0 1;
  }

  average : DeviceStats R → Option R → R
  average stats none = F.literal 0 1
  average stats (some n) = F.div stats.total_response_ms n

  -- The count is far below what a float can hold.
  unfoldable pub avg_response_ms : DeviceStats R → R
  unfolding average
  avg_response_ms stats = elim stats.success_count [
    | zero ↦ F.literal 0 1
    | suc n ↦ average stats (F.of_int (pos (suc n)))
  ]

  unfoldable pub reset_stats : Dict ℕ (DeviceStats R) → ℕ → Dict ℕ (DeviceStats R)
  reset_stats stats device_id = if has stats device_id then put stats device_id new_stats else stats
