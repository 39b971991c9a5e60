-- ===== src/Wifi/Documented.antt =====
-- What the documentation of ESP-IDF says of the calls that components/internals/esp32/wifi.c makes: the
-- default event loop, the handlers registered with it, and the driver.
use esp32_berry_lang.Base.{
  ◌≡◌, refl, Bool, true, false, not, Bytes, List, [], ◌∷◌, ◌++◌, take, Option, none, some,
}
use esp32_berry_lang.Wifi.{
  Call, netif_init, loop_create, wifi_init, set_mode, set_config, wifi_start, loop_delete,
  register_wifi, register_ip, unregister_wifi, unregister_ip, Wifi, Driver, EventLoop, call,
}

-- What a call makes of the event loop, of the two handlers registered with it, and of the driver
unfoldable pub loop_by : Call → Bool → Bool
loop_by loop_create b = true
loop_by loop_delete b = false
loop_by _ b = b

unfoldable pub wifi_by : Call → Bool → Bool
wifi_by register_wifi b = true
wifi_by unregister_wifi b = false
wifi_by loop_create b = false
wifi_by loop_delete b = false
wifi_by _ b = b

unfoldable pub ip_by : Call → Bool → Bool
ip_by register_ip b = true
ip_by unregister_ip b = false
ip_by loop_create b = false
ip_by loop_delete b = false
ip_by _ b = b

unfoldable pub init_by : Call → Bool → Bool
init_by wifi_init b = true
init_by _ b = b

unfoldable pub fold_calls : (Call → Bool → Bool) → Bool → List Call → Bool
fold_calls by b [] = b
fold_calls by b (c ∷ cs) = fold_calls by (by c b) cs

abbrev pub has : (Call → Bool → Bool) → List Call → Bool
has by calls = fold_calls by false calls

-- Whether a call returns ESP_OK, where the documentation says so and no memory is missing.
unfoldable pub answer : List Call → Call → Option Bool
answer before netif_init = some true
answer before loop_create = some (not (has loop_by before))
answer before wifi_init = some true
answer before register_wifi = some (has loop_by before)
answer before register_ip = some (has loop_by before)
answer before unregister_wifi = some (has wifi_by before)
answer before unregister_ip = some (has ip_by before)
answer before set_mode = some (has init_by before)
answer before wifi_start = some (has init_by before)
answer before _ = none

-- The driver answers as documented, takes this name and password, and the event loop hands events on
-- from its creation to its deletion.
pub record IsDocumented (driver : Driver) (loop : EventLoop) (ssid pass : Bytes) : Type 0 where
  pub delivers : (before : List Call) → loop before ≡ has loop_by before
  pub answers :
      (before : List Call) (c : Call) (b : Bool) → answer before c ≡ some b → driver before c ≡ b
  pub takes :
      (before : List Call)
      → driver before (set_config (take 32 ssid) (take 32 pass)) ≡ has init_by before

pub fold_calls-append :
    (by : Call → Bool → Bool) (b : Bool) (cs ds : List Call)
    → fold_calls by b (cs ++ ds) ≡ fold_calls by (fold_calls by b cs) ds
unfolding fold_calls
fold_calls-append by b [] ds = refl
fold_calls-append by b (c ∷ cs) ds = fold_calls-append by (by c b) cs ds

-- What a further call makes of the state
pub has-call :
    (by : Call → Bool → Bool) (c : Call) (s : Wifi)
    → has by (call c s).calls ≡ by c (has by s.calls)
unfolding call fold_calls
has-call by c s = fold_calls-append by false s.calls (c ∷ [])
