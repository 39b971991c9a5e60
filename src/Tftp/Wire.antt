-- ===== src/Tftp/Wire.antt =====
-- The words of a TFTP packet: components/internals/esp32/tftp_server.c, `enum e_tftp_cmd`,
-- `enum e_error_code`, and the casts `*(uint16_t*) (&m_buffer[i])` under `htons` and `ntohs`.
use esp32_berry_lang.Base.{ℕ, ◌+◌, ◌*◌, ◌/◌, ◌%◌, Bytes, set, get_or}

-- `enum e_tftp_cmd`
abbrev pub rrq : ℕ
rrq = 1

abbrev pub wrq : ℕ
wrq = 2

abbrev pub data_cmd : ℕ
data_cmd = 3

abbrev pub ack_cmd : ℕ
ack_cmd = 4

abbrev pub error_cmd : ℕ
error_cmd = 5

-- `enum e_error_code`, the codes that the server sends
abbrev pub not_defined : ℕ
not_defined = 0

abbrev pub file_not_found : ℕ
file_not_found = 1

abbrev pub access_violation : ℕ
access_violation = 2

abbrev pub illegal_operation : ℕ
illegal_operation = 4

-- `TFTP_DATA_SIZE`, the size of `m_buffer`
abbrev pub tftp_data_size : ℕ
tftp_data_size = 516

-- The bytes of a 16-bit word in network order; a wider value is cut to 16 bits.
abbrev pub hi : ℕ → ℕ
hi v = v / 256 % 256

abbrev pub lo : ℕ → ℕ
lo v = v % 256

-- `*(uint16_t*) (&b[i]) = htons(v)`
abbrev pub put16 : Bytes → ℕ → ℕ → Bytes
put16 b i v = set (set b i (hi v)) (i + 1) (lo v)

-- `ntohs(*(uint16_t*) (&b[i]))`
abbrev pub get16 : Bytes → ℕ → ℕ
get16 b i = get_or b i 0 * 256 + get_or b (i + 1) 0
