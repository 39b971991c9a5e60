-- ===== src/Wifi/Waits.antt =====
-- How `wifi_init_sta` of components/internals/esp32/wifi.c ends.
use esp32_berry_lang.Base.{ℕ, suc, ◌≡◌, true, false, Bytes, take}
use esp32_berry_lang.Wifi.{
  netif_init, loop_create, create_sta, group_create, wifi_init, set_mode, set_config, wifi_start,
  register_wifi, register_ip, Wifi, Driver, EventLoop, call, Waited, waiting, returned, ended,
}
use esp32_berry_lang.Wifi.Documented.{IsDocumented}
use esp32_berry_lang.Wifi.Outcome.{Outcome, undecided, connects, stuck, aborts}

-- `wifi_init_sta` ends with this outcome, if the count of retries was `n`.
abbrev pub EndsAs : ℕ → Outcome → Waited → Type 0
EndsAs n undecided (waiting t) = t.s_retry_num ≡ n
EndsAs n connects (returned t) = (t.wifi_connected ≡ true) × (t.s_retry_num ≡ 0)
EndsAs n stuck (waiting t) = t.s_retry_num ≡ suc n
EndsAs n aborts (ended t) = t.wifi_connected ≡ false
EndsAs n _ _ = ⊥

module _ {driver : Driver} {loop : EventLoop} {ssid pass : Bytes}
    (doc : IsDocumented driver loop ssid pass) where
  -- The state in which the station waits: the driver has been set up, in this order.
  at_wait : Wifi → Wifi
  at_wait s =
      let s1 = call loop_create (call netif_init s) in
      let s2 : Wifi = record (call create_sta (call group_create s1)) {
        connected_bit = false;
        fail_bit = false;
      } in
      let s3 = call register_ip (call register_wifi (call wifi_init s2)) in
      call wifi_start (call (set_config (take 32 ssid) (take 32 pass)) (call set_mode s3))
