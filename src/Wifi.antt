-- ===== src/Wifi.antt =====
-- The station mode of the network, components/internals/esp32/wifi.c. The calls of the driver are
-- kept in their order; whether one returns ESP_OK, and whether the event loop hands events on, are
-- parameters, given the calls before. What
-- `ESP_ERROR_CHECK` and `assert` find wrong ends the program.
pub mod Documented
pub mod Outcome
pub mod Scan
pub mod Waits
use esp32_berry_lang.Base.{
  ℕ, suc, ltb, Bool, true, false, ◌||◌, Bytes, List, [], ◌∷◌, ◌++◌, take, if◌then◌else◌,
}

-- The calls of the driver, of its event loop and of the event group. `set_config` is given the name
-- and the password.
pub data Call : Type 0 where
  netif_init loop_create create_sta wifi_init set_mode wifi_start wifi_connect : Call
  wifi_stopped netif_destroy loop_delete netif_deinit scan_start : Call
  get_ap_records get_ap_num group_create group_delete : Call
  register_wifi register_ip unregister_wifi unregister_ip : Call
  set_config : Bytes → Bytes → Call

-- The globals `s_retry_num` and `wifi_connected`, the bits of `s_wifi_event_group`, and the calls.
pub record Wifi : Type 0 where
  pub s_retry_num : ℕ
  pub wifi_connected : Bool
  pub connected_bit : Bool
  pub fail_bit : Bool
  pub calls : List Call

abbrev pub Driver : Type 0
Driver = List Call → Call → Bool

-- Whether the default event loop, after these calls, is there and hands events to the handlers
abbrev pub EventLoop : Type 0
EventLoop = List Call → Bool

-- The program goes on, or has been ended by a failed check.
pub data Checked : Type 0 where
  running : Wifi → Checked
  aborted : Wifi → Checked

unfoldable pub call : Call → Wifi → Wifi
call c s = record s { calls = s.calls ++ (c ∷ []) }

-- `ESP_ERROR_CHECK` of these calls, one after the other
unfoldable pub checks : Driver → List Call → Wifi → Checked
checks driver [] s = running s
checks driver (c ∷ cs) s =
    let rest = checks driver cs (call c s) in if driver s.calls c then rest else aborted (call c s)

-- `wifi_stop`
unfoldable pub wifi_stop : Wifi → Wifi
wifi_stop s = record s {
  wifi_connected = false;
  calls = s.calls ++ (wifi_stopped ∷ netif_destroy ∷ loop_delete ∷ netif_deinit ∷ []);
}

pub data Event : Type 0 where
  sta_start sta_disconnected sta_got_ip other_event : Event

-- The retries before `WIFI_FAIL_BIT`
abbrev pub max_retries : ℕ
max_retries = 10

-- `wifi_event_handler` on a lost connection, up to `wifi_stop`
unfoldable pub retry : Wifi → Wifi
retry s =
    if ltb s.s_retry_num max_retries
    then record (call wifi_connect s) { s_retry_num = suc s.s_retry_num }
    else record s { fail_bit = true; wifi_connected = false }

-- `wifi_event_handler`
unfoldable pub handle : Event → Wifi → Wifi
handle sta_start s = call wifi_connect s
handle sta_disconnected s = wifi_stop (record (retry s) { wifi_connected = false })
handle sta_got_ip s = record s { wifi_connected = true; s_retry_num = 0; connected_bit = true }
handle other_event s = s

-- `wifi_init_sta` waits, or has returned, or a check has ended the program.
pub data Waited : Type 0 where
  waiting : Wifi → Waited
  returned : Wifi → Waited
  ended : Wifi → Waited

-- An event that comes is handled while the event loop is there, and lost otherwise.
unfoldable pub deliver : EventLoop → Event → Wifi → Wifi
deliver loop e s = if loop s.calls then handle e s else s

-- `xEventGroupWaitBits` of either bit, with no time limit. The handler runs on the events that come
-- before a bit is set, each to its end.
unfoldable pub wait_bits : EventLoop → List Event → Wifi → Waited
wait_bits loop [] s = if s.connected_bit || s.fail_bit then returned s else waiting s
wait_bits loop (e ∷ events) s =
    let rest = wait_bits loop events (deliver loop e s) in
    if s.connected_bit || s.fail_bit then returned s else rest

-- What follows a check
unfoldable pub go_on : (Wifi → Waited) → Checked → Waited
go_on next (running s) = next s
go_on next (aborted s) = ended s

-- The end of `wifi_init_sta`
unfoldable pub unregister : Driver → Wifi → Waited
unregister driver s =
    go_on (λ s'. returned (call group_delete s'))
      (checks driver (unregister_ip ∷ unregister_wifi ∷ []) s)

-- What the bits say: the one for a connection is tested first.
unfoldable pub after_wait : Driver → Waited → Waited
after_wait driver (returned s) = unregister driver (record s { wifi_connected = s.connected_bit })
after_wait driver w = w

-- At most 32 bytes of each are copied.
unfoldable pub start_calls : Bytes → Bytes → List Call
start_calls ssid pass = set_mode ∷ set_config (take 32 ssid) (take 32 pass) ∷ wifi_start ∷ []

unfoldable pub start_station : Driver → EventLoop → Bytes → Bytes → List Event → Wifi → Waited
start_station driver loop ssid pass events s =
    go_on (λ s'. after_wait driver (wait_bits loop events s'))
      (checks driver (start_calls ssid pass) s)

-- The driver and the handlers, once the event group is there: a new one, with no bit set. Neither it
-- nor the network interface is checked.
unfoldable pub register_all : Driver → Checked → Checked
register_all driver (aborted s) = aborted s
register_all driver (running s) =
    checks driver (wifi_init ∷ register_wifi ∷ register_ip ∷ [])
      (record (call create_sta (call group_create s)) { connected_bit = false; fail_bit = false })

-- `wifi_init_sta`, with the events that come while it waits
unfoldable pub wifi_init_sta : Driver → EventLoop → Bytes → Bytes → List Event → Wifi → Waited
wifi_init_sta driver loop ssid pass events s =
    go_on (start_station driver loop ssid pass events)
      (register_all driver (checks driver (netif_init ∷ loop_create ∷ []) s))
