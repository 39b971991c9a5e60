-- ===== src/Wifi/Scan.antt =====
-- The scan for access points and its log, `wifi_scan`, `print_auth_mode` and `print_cipher_type` of
-- components/internals/esp32/wifi.c.
use esp32_berry_lang.Base.{
  ℕ, min, Bool, true, false, Bytes, List, [], ◌∷◌, ◌++◌, codes, take, replicate, if◌then◌else◌,
}
use esp32_berry_lang.Base.Int.{ℤ, pos}
use esp32_berry_lang.Wifi.{
  Call, netif_init, loop_create, create_sta, wifi_init, set_mode, wifi_start, scan_start,
  get_ap_records, get_ap_num, Wifi, Driver, Checked, running, aborted, call, checks, wifi_stop,
}

pub data AuthMode : Type 0 where
  auth_open auth_wep auth_wpa_psk auth_wpa2_psk auth_wpa_wpa2_psk : AuthMode
  auth_wpa2_enterprise auth_wpa3_psk auth_wpa2_wpa3_psk auth_other : AuthMode

pub data Cipher : Type 0 where
  cipher_none cipher_wep40 cipher_wep104 cipher_tkip cipher_ccmp cipher_tkip_ccmp : Cipher
  cipher_other : Cipher

-- `wifi_ap_record_t`
pub record Ap : Type 0 where
  pub ssid : Bytes
  pub rssi : ℤ
  pub authmode : AuthMode
  pub pairwise_cipher : Cipher
  pub group_cipher : Cipher
  pub primary : ℕ

-- A line of the log: a text, or a text with a name or a number.
pub data Line : Type 0 where
  text : Bytes → Line
  total : ℕ → Line
  ssid_line : Bytes → Line
  rssi_line : ℤ → Line
  channel : ℕ → Line

-- `print_auth_mode`
unfoldable pub print_auth_mode : AuthMode → Line
print_auth_mode auth_open = text (codes "Authmode: WIFI_AUTH_OPEN")
print_auth_mode auth_wep = text (codes "Authmode: tWIFI_AUTH_WEP")
print_auth_mode auth_wpa_psk = text (codes "Authmode: WIFI_AUTH_WPA_PSK")
print_auth_mode auth_wpa2_psk = text (codes "Authmode: WIFI_AUTH_WPA2_PSK")
print_auth_mode auth_wpa_wpa2_psk = text (codes "Authmode: WIFI_AUTH_WPA_WPA2_PSK")
print_auth_mode auth_wpa2_enterprise = text (codes "Authmode: WIFI_AUTH_WPA2_ENTERPRISE")
print_auth_mode auth_wpa3_psk = text (codes "Authmode: WIFI_AUTH_WPA3_PSK")
print_auth_mode auth_wpa2_wpa3_psk = text (codes "Authmode: WIFI_AUTH_WPA2_WPA3_PSK")
print_auth_mode auth_other = text (codes "Authmode: WIFI_AUTH_UNKNOWN")

-- The first `switch` of `print_cipher_type`
unfoldable pub pairwise_line : Cipher → Bytes
pairwise_line cipher_none = codes "Pairwise Cipher: WIFI_CIPHER_TYPE_NONE"
pairwise_line cipher_wep40 = codes "Pairwise Cipher: WIFI_CIPHER_TYPE_WEP40"
pairwise_line cipher_wep104 = codes "Pairwise Cipher: tWIFI_CIPHER_TYPE_WEP104"
pairwise_line cipher_tkip = codes "Pairwise Cipher: WIFI_CIPHER_TYPE_TKIP"
pairwise_line cipher_ccmp = codes "Pairwise Cipher: WIFI_CIPHER_TYPE_CCMP"
pairwise_line cipher_tkip_ccmp = codes "Pairwise Cipher: WIFI_CIPHER_TYPE_TKIP_CCMP"
pairwise_line cipher_other = codes "Pairwise Cipher: tWIFI_CIPHER_TYPE_UNKNOWN"

-- The second one
unfoldable pub group_line : Cipher → Bytes
group_line cipher_none = codes "Group Cipher: WIFI_CIPHER_TYPE_NONE"
group_line cipher_wep40 = codes "Group Cipher: WIFI_CIPHER_TYPE_WEP40"
group_line cipher_wep104 = codes "Group Cipher: WIFI_CIPHER_TYPE_WEP104"
group_line cipher_tkip = codes "Group Cipher: WIFI_CIPHER_TYPE_TKIP"
group_line cipher_ccmp = codes "Group Cipher: WIFI_CIPHER_TYPE_CCMP"
group_line cipher_tkip_ccmp = codes "Group Cipher: WIFI_CIPHER_TYPE_TKIP_CCMP"
group_line cipher_other = codes "Group Cipher: WIFI_CIPHER_TYPE_UNKNOWN"

-- `print_cipher_type`
unfoldable pub print_cipher_type : Cipher → Cipher → List Line
print_cipher_type pairwise_cipher group_cipher =
    text (pairwise_line pairwise_cipher) ∷ text (group_line group_cipher) ∷ []

unfoldable pub cipher_lines : AuthMode → Ap → List Line
cipher_lines auth_wep ap = []
cipher_lines mode ap = print_cipher_type ap.pairwise_cipher ap.group_cipher

-- One round of the loop
unfoldable pub ap_lines : Ap → List Line
ap_lines ap =
    ssid_line ap.ssid
    ∷ rssi_line ap.rssi
    ∷ print_auth_mode ap.authmode
    ∷ (cipher_lines ap.authmode ap ++ (channel ap.primary ∷ []))

unfoldable pub all_lines : List Ap → List Line
all_lines [] = []
all_lines (ap ∷ aps) = ap_lines ap ++ all_lines aps

abbrev pub default_scan_list_size : ℕ
default_scan_list_size = 50

-- A record of `ap_info` that the driver has not filled, as `memset` leaves it
abbrev pub empty_ap : Ap
empty_ap = record {
  ssid = [];
  rssi = pos 0;
  authmode = auth_open;
  pairwise_cipher = cipher_none;
  group_cipher = cipher_none;
  primary = 0;
}

-- What the scan finds: the records it writes, of which `number` fit, and `ap_count`
pub record Found : Type 0 where
  pub records : List Ap
  pub ap_count : ℕ

-- `ap_info` after `esp_wifi_scan_get_ap_records`
unfoldable pub ap_info : List Ap → List Ap
ap_info records = take default_scan_list_size (records ++ replicate default_scan_list_size empty_ap)

-- The log of a scan: at most 50 records, as many as `ap_count` says
unfoldable pub scan_lines : Found → List Line
scan_lines found =
    total found.ap_count
    ∷ all_lines (take (min default_scan_list_size found.ap_count) (ap_info found.records))

-- The driver is started for the scan if there is no connection.
unfoldable pub scan_start_calls : Bool → List Call
scan_start_calls true = []
scan_start_calls false =
    netif_init ∷ loop_create ∷ create_sta ∷ wifi_init ∷ set_mode ∷ wifi_start ∷ []

-- The end of a scan
unfoldable pub end_scan : List Line → Checked → List Line × Checked
end_scan lines (aborted s) = ([], aborted s)
end_scan lines (running s) = (lines, running (if s.wifi_connected then s else wifi_stop s))

-- The scan itself, of which the start is not checked
unfoldable pub scan : Driver → Found → Checked → List Line × Checked
scan driver found (aborted s) = ([], aborted s)
scan driver found (running s) =
    end_scan (scan_lines found)
      (checks driver (get_ap_records ∷ get_ap_num ∷ []) (call scan_start s))

-- `wifi_scan`
unfoldable pub wifi_scan : Driver → Found → Wifi → List Line × Checked
wifi_scan driver found s = scan driver found (checks driver (scan_start_calls s.wifi_connected) s)
