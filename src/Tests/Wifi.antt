-- ===== src/Tests/Wifi.antt =====
-- The station mode at concrete inputs.
use esp32_berry_lang.Base.{Bool, false, List, [], Option, none, some}
use esp32_berry_lang.Wifi.{Call, Wifi, Driver, EventLoop}
use esp32_berry_lang.Wifi.Documented.{loop_by, init_by, has, answer}

abbrev or_taken : List Call → Option Bool → Bool
or_taken before none = has init_by before
or_taken before (some b) = b

-- A driver that answers as documented and takes every configuration
abbrev driver : Driver
driver before c = or_taken before (answer before c)

abbrev loop : EventLoop
loop before = has loop_by before

-- Seven retries of an earlier attempt are still counted.
abbrev before : Wifi
before = record {
  s_retry_num = 7;
  wifi_connected = false;
  connected_bit = false;
  fail_bit = false;
  calls = [];
}
