-- ===== src/Utils.antt =====
-- The device's number and the conversion of times: src/components/common (utils.h, utils.cpp).
use esp_ac_dimmer.Prelude.{
  ℕ, ◌+◌, ◌/◌, ◌%◌, ◌^◌, ◌<◌, arith, List, Option, none, some, take, get_or,
}
use esp_ac_dimmer.Streams.Values.{value_of}

-- The argument is the address of `esp_efuse_mac_get_default`, `none` for its errors. Its first four bytes
-- are `cpuId`, the other two `additional`.
pub get_cpu_id : Option (List ℕ) → ℕ
get_cpu_id none = 0
get_cpu_id (some mac) = (value_of (take 4 mac) + get_or mac 4 0 + get_or mac 5 0) % 2 ^ 32

pub get_cpu_id-lt : (mac : Option (List ℕ)) → get_cpu_id mac < 2 ^ 32
unfolding get_cpu_id
get_cpu_id-lt none = omega arith
get_cpu_id-lt (some mac) = omega arith

-- `msecToSysTick`, of a `std::uint32_t`; the length of a tick is FreeRTOS's.
pub msec_to_sys_tick : ℕ → ℕ → ℕ
msec_to_sys_tick tick_period_ms time_in_ms = time_in_ms / tick_period_ms
