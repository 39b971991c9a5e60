-- ===== src/Wifi/Outcome.antt =====
-- The wait for the bits in `wifi_init_sta` of components/internals/esp32/wifi.c. A lost connection makes
-- the handler call `wifi_stop`, which deletes the event loop.
use esp32_berry_lang.Base.{
  ℕ, suc, ltb, ◌≡◌, refl, ◌∙◌, true, false, ◌||◌, Bool-cases, inl, inr, Bytes, List, [], ◌∷◌,
  if◌then◌else◌, arith,
}
use esp32_berry_lang.Wifi.{
  Wifi, Driver, EventLoop, call, wifi_stop, Event, sta_start, sta_disconnected, sta_got_ip,
  other_event, retry, handle, max_retries, Waited, waiting, returned, deliver, wait_bits,
}
use esp32_berry_lang.Wifi.Documented.{
  loop_by, wifi_by, ip_by, fold_calls, has, IsDocumented, fold_calls-append,
}

-- How the attempt should end.
pub data Outcome : Type 0 where
  undecided connects stuck aborts : Outcome

-- What the events say, with the count of retries: an address that comes first means success. A
-- connection lost first means that the call waits for ever, or, with no retry left, that the program
-- is aborted.
unfoldable pub outcome : ℕ → List Event → Outcome
outcome n [] = undecided
outcome n (sta_got_ip ∷ events) = connects
outcome n (sta_disconnected ∷ events) = if ltb n max_retries then stuck else aborts
outcome n (sta_start ∷ events) = outcome n events
outcome n (other_event ∷ events) = outcome n events

-- The same of the wait for the bits
abbrev pub WaitsAs : ℕ → Outcome → Waited → Type 0
WaitsAs n undecided (waiting t) = t.s_retry_num ≡ n
WaitsAs n connects (returned t) =
    (t.connected_bit ≡ true)
    × (t.s_retry_num ≡ 0)
    × (has wifi_by t.calls ≡ true)
    × (has ip_by t.calls ≡ true)
WaitsAs n stuck (waiting t) = t.s_retry_num ≡ suc n
WaitsAs n aborts (returned t) = (t.connected_bit ≡ false) × (has ip_by t.calls ≡ false)
WaitsAs n _ _ = ⊥

-- No bit is set, and the loop and the handlers are there.
pub record IsOpen (s : Wifi) : Type 0 where
  pub connected : s.connected_bit ≡ false
  pub fail : s.fail_bit ≡ false
  pub looping : has loop_by s.calls ≡ true
  pub on_wifi : has wifi_by s.calls ≡ true
  pub on_ip : has ip_by s.calls ≡ true

wait_set :
    (loop : EventLoop) (events : List Event) (t : Wifi)
    → (t.connected_bit || t.fail_bit) ≡ true
    → wait_bits loop events t ≡ returned t
unfolding wait_bits
wait_set loop [] t h = rw h refl
wait_set loop (e ∷ events) t h = rw h refl

module _ {driver : Driver} {loop : EventLoop} {ssid pass : Bytes}
    (doc : IsDocumented driver loop ssid pass) where
  -- Without its loop, the wait never ends.
  wait_deaf :
      (events : List Event) (t : Wifi)
      → (t.connected_bit || t.fail_bit) ≡ false
      → has loop_by t.calls ≡ false
      → wait_bits loop events t ≡ waiting t
  unfolding wait_bits deliver
  wait_deaf [] t h k = rw h refl
  wait_deaf (e ∷ events) t h k = rw (h, doc.delivers t.calls, k) (wait_deaf events t h k)

  wait_step :
      (e : Event) (events : List Event) (s : Wifi)
      → IsOpen s
      → wait_bits loop (e ∷ events) s ≡ wait_bits loop events (handle e s)
  unfolding wait_bits deliver
  wait_step e events s h = simp (h.connected, h.fail, doc.delivers s.calls, h.looping)

  -- A lost connection takes the loop away and sets no bit for a connection.
  lost_lem :
      (s : Wifi)
      → IsOpen s
      → let t = handle sta_disconnected s in
        (has loop_by t.calls ≡ false) × (has ip_by t.calls ≡ false) × (t.connected_bit ≡ false)
  unfolding handle wifi_stop fold_calls loop_by ip_by retry call
  lost_lem s h = (
    fold_calls-append loop_by false (retry s).calls _,
    fold_calls-append ip_by false (retry s).calls _,
    ground (arith, h.connected),
  )

  retry-less :
      (s : Wifi)
      → IsOpen s
      → ltb s.s_retry_num max_retries ≡ true
      → let t = handle sta_disconnected s in
        ((t.connected_bit || t.fail_bit) ≡ false) × (t.s_retry_num ≡ suc s.s_retry_num)
  unfolding handle wifi_stop retry call
  retry-less s h less = ground (arith, h.connected, h.fail, less)

  retry-none :
      (s : Wifi)
      → ltb s.s_retry_num max_retries ≡ false
      → let t = handle sta_disconnected s in (t.connected_bit || t.fail_bit) ≡ true
  unfolding handle wifi_stop retry call
  retry-none s none_left = ground (arith, none_left)

  wait_lost :
      (events : List Event) (s : Wifi)
      → IsOpen s
      → WaitsAs s.s_retry_num
          (outcome s.s_retry_num (sta_disconnected ∷ events))
          (wait_bits loop events (handle sta_disconnected s))
  unfolding outcome
  wait_lost events s h =
      let (deaf, ip, connected) = lost_lem s h in
      elim (Bool-cases (ltb s.s_retry_num max_retries)) [
        | inl less ↦
            let (bits, counted) = retry-less s h less in
            rw (less, wait_deaf events (handle sta_disconnected s) bits deaf) counted
        | inr more ↦
            rw (more, wait_set loop events (handle sta_disconnected s) (retry-none s more))
              (connected, ip)
      ]

  wait_connected :
      (events : List Event) (s : Wifi)
      → IsOpen s
      → WaitsAs s.s_retry_num connects (wait_bits loop events (handle sta_got_ip s))
  unfolding handle
  wait_connected events s h =
      rw (wait_set loop events (handle sta_got_ip s) refl) (refl, refl, h.on_wifi, h.on_ip)

  start-IsOpen : (s : Wifi) → IsOpen s → IsOpen (handle sta_start s)
  unfolding handle call fold_calls loop_by wifi_by ip_by
  start-IsOpen s h = record {
    connected = h.connected;
    fail = h.fail;
    looping = fold_calls-append loop_by false s.calls _ ∙ h.looping;
    on_wifi = fold_calls-append wifi_by false s.calls _ ∙ h.on_wifi;
    on_ip = fold_calls-append ip_by false s.calls _ ∙ h.on_ip;
  }

  pub wait_bits-WaitsAs :
      (events : List Event) (s : Wifi)
      → IsOpen s
      → WaitsAs s.s_retry_num (outcome s.s_retry_num events) (wait_bits loop events s)
  unfolding outcome handle call
  wait_bits-WaitsAs [] s h = unfold wait_bits in simp (h.connected, h.fail)
  wait_bits-WaitsAs (sta_start ∷ events) s h =
      rw (wait_step sta_start events s h)
        (wait_bits-WaitsAs events (handle sta_start s) (start-IsOpen s h))
  wait_bits-WaitsAs (sta_disconnected ∷ events) s h =
      rw (wait_step sta_disconnected events s h) (wait_lost events s h)
  wait_bits-WaitsAs (sta_got_ip ∷ events) s h =
      rw (wait_step sta_got_ip events s h) (wait_connected events s h)
  wait_bits-WaitsAs (other_event ∷ events) s h =
      rw (wait_step other_event events s h) (wait_bits-WaitsAs events s h)
