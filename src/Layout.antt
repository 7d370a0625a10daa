-- ===== src/Layout.antt =====
-- pkg/featcache/types.go: the layout constants, the header and slot records, and the two helpers
-- on uint32, which wrap at 2 ^ 32.
pub mod Align
pub mod Pow2
mod Examples
use featcache.Common.{
  ℕ, ◌+◌, ◌-◌, ◌*◌, ◌/◌, ◌%◌, ◌^◌, List, Bool, bit_and, bit_or, ◌==◌, if◌then◌else◌,
}

-- 0x46454154
abbrev pub magic : ℕ
magic = 0x46454154

abbrev pub version : ℕ
version = 1

abbrev pub header_size : ℕ
header_size = 64

abbrev pub slot_size : ℕ
slot_size = 24

abbrev pub segment_default_size : ℕ
segment_default_size = 2 * 2 ^ 30

abbrev pub max_key_len : ℕ
max_key_len = 256

-- The first 64 bytes of a segment; `reserved` is the 16 bytes at offset 48.
pub record Header : Type 0 where
  pub magic_field : ℕ
  pub version_field : ℕ
  pub size : ℕ
  pub gen_counter : ℕ
  pub hash_cap : ℕ
  pub hash_offset : ℕ
  pub data_offset : ℕ
  pub data_end : ℕ
  pub segment_id : ℕ
  pub flags : ℕ
  pub reserved : List ℕ

abbrev pub slot_empty : ℕ
slot_empty = 0

abbrev pub slot_used : ℕ
slot_used = 1

abbrev pub slot_tomb : ℕ
slot_tomb = 2

pub record HashSlot : Type 0 where
  pub hash : ℕ
  pub offset : ℕ
  pub vlen : ℕ
  pub status : ℕ

-- `OpCode` and `StatusCode` are bytes; any byte may arrive, so they are numbers with names.
abbrev pub op_get_info : ℕ
op_get_info = 1

abbrev pub op_get_status : ℕ
op_get_status = 2

abbrev pub resp_ok : ℕ
resp_ok = 0

abbrev pub resp_not_found : ℕ
resp_not_found = 1

abbrev pub resp_busy : ℕ
resp_busy = 2

abbrev pub resp_error : ℕ
resp_error = 3

abbrev pub u32 : ℕ → ℕ
u32 n = n % 2 ^ 32

-- `a - b` on uint32; the modulus goes in first, since `-` stops at 0.
abbrev pub sub_u32 : ℕ → ℕ → ℕ
sub_u32 a b = (a + 2 ^ 32 - b) % 2 ^ 32

-- `x &^ y` is x without the bits that it shares with y.
abbrev pub bit_clear : ℕ → ℕ → ℕ
bit_clear x y = x - bit_and x y

-- `(v + n - 1) &^ (n - 1)`
unfoldable pub align : ℕ → ℕ → ℕ
align v n = bit_clear (sub_u32 (u32 (v + n)) 1) (sub_u32 n 1)

-- `v |= v >> s`
unfoldable pub smear : ℕ → ℕ → ℕ
smear s v = bit_or v (v / 2 ^ s)

unfoldable pub next_pow2 : ℕ → ℕ
next_pow2 v =
    if v == 0 then 1 else u32 (smear 16 (smear 8 (smear 4 (smear 2 (smear 1 (v - 1))))) + 1)
