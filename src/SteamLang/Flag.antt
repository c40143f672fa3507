-- ===== src/SteamLang/Flag.antt =====
-- The top bit of a raw EMsg.
use go_steam_ws.Base.{ℕ, ◌+◌, ◌*◌, ◌/◌, ◌%◌, ◌^◌, ◌<◌, ◌≡◌, Bool, leb, bit_and, bit_or, arith}
use go_steam_ws.Base.Bits.{
  bit_and_split, bit_or_split, bit_and-zero, bit_or-zero, bit_and-ones, zero-bit_or,
}
use go_steam_ws.SteamLang.{proto_mask, emsg_mask, new_emsg, is_proto}

-- On a uint32 the mask drops the top bit and nothing else.
pub bit_and-emsg_mask : (e : ℕ) → e < 2 ^ 32 → bit_and e emsg_mask ≡ e % 2 ^ 31
bit_and-emsg_mask e h = ground (
  arith,
  bit_and_split 31 (e / 2 ^ 31) (e % 2 ^ 31) 0 emsg_mask,
  bit_and-zero 1 (e / 2 ^ 31),
  bit_and-ones 31 (e % 2 ^ 31),
)

pub bit_and-proto_mask : (e : ℕ) → e < 2 ^ 32 → bit_and e proto_mask ≡ e / 2 ^ 31 * 2 ^ 31
bit_and-proto_mask e h = ground (
  arith,
  bit_and_split 31 (e / 2 ^ 31) (e % 2 ^ 31) 1 0,
  bit_and-zero 31 (e % 2 ^ 31),
  bit_and-ones 1 (e / 2 ^ 31),
)

pub bit_or-proto_mask : (e : ℕ) → e < 2 ^ 31 → bit_or e proto_mask ≡ e + 2 ^ 31
bit_or-proto_mask e h = ground (arith, bit_or_split 31 0 e 1 0, bit_or-zero 31 e, zero-bit_or 1)

pub is_proto_lem : (e : ℕ) → e < 2 ^ 32 → is_proto e ≡ leb (2 ^ 31) e
unfolding is_proto
is_proto_lem e h = ground (arith, bit_and-proto_mask e)

-- A message number below 2 ^ 31 with the protobuf flag set: the flag shows and the number is kept.
pub flag_round_trip :
    (e : ℕ)
    → e < 2 ^ 31
    → (is_proto (bit_or e proto_mask) ≡ Bool.true)
      × (new_emsg (bit_or e proto_mask) ≡ e)
      × (is_proto e ≡ Bool.false)
      × (new_emsg e ≡ e)
unfolding is_proto new_emsg
flag_round_trip e h = ground (
  arith,
  bit_or-proto_mask e,
  bit_and-proto_mask e,
  bit_and-proto_mask (e + 2 ^ 31),
  bit_and-emsg_mask e,
  bit_and-emsg_mask (e + 2 ^ 31),
)
