-- ===== src/SteamId/Fields.antt =====
-- The setters and getters in plain arithmetic.
use go_steam_ws.Base.{ℕ, ◌+◌, ◌*◌, ◌/◌, ◌%◌, ◌^◌, ◌<◌, ◌≡◌, bit_and, arith}
use go_steam_ws.Base.Bits.{bit_and_split, bit_and-zero, bit_and-ones, replace_field}
use go_steam_ws.SteamId.{
  extend32, get_account_id, set_account_id, get_account_instance, set_account_instance,
  get_account_type, set_account_type, get_account_universe, set_account_universe, new_id_adv,
}

mask32 : (a : ℕ) → a < 2 ^ 64 → bit_and a 0xffff_ffff ≡ a % 2 ^ 32
mask32 a h = ground (
  arith,
  bit_and_split 32 (a / 2 ^ 32) (a % 2 ^ 32) 0 0xffff_ffff,
  bit_and-zero 32 (a / 2 ^ 32),
  bit_and-ones 32 (a % 2 ^ 32),
)

mask20 : (a : ℕ) → a < 2 ^ 64 → bit_and a 0xfffff ≡ a % 2 ^ 20
mask20 a h = ground (
  arith,
  bit_and_split 20 (a / 2 ^ 20) (a % 2 ^ 20) 0 0xfffff,
  bit_and-zero 44 (a / 2 ^ 20),
  bit_and-ones 20 (a % 2 ^ 20),
)

mask4 : (a : ℕ) → a < 2 ^ 64 → bit_and a 0xf ≡ a % 2 ^ 4
mask4 a h = ground (
  arith,
  bit_and_split 4 (a / 2 ^ 4) (a % 2 ^ 4) 0 0xf,
  bit_and-zero 60 (a / 2 ^ 4),
  bit_and-ones 4 (a % 2 ^ 4),
)

pub get_account_id_lem : (s : ℕ) → s < 2 ^ 64 → get_account_id s ≡ s % 2 ^ 32
unfolding get_account_id
get_account_id_lem s h = ground (arith, mask32 (s / 2 ^ 0))

pub get_account_instance_lem : (s : ℕ) → s < 2 ^ 64 → get_account_instance s ≡ s / 2 ^ 32 % 2 ^ 20
unfolding get_account_instance
get_account_instance_lem s h = ground (arith, mask20 (s / 2 ^ 32))

pub get_account_type_lem : (s : ℕ) → s < 2 ^ 64 → get_account_type s ≡ s / 2 ^ 52 % 2 ^ 4
unfolding get_account_type
get_account_type_lem s h = ground (arith, mask4 (s / 2 ^ 52))

pub get_account_universe_lem : (s : ℕ) → s < 2 ^ 64 → get_account_universe s ≡ s / 2 ^ 56 % 2 ^ 4
unfolding get_account_universe
get_account_universe_lem s h = ground (arith, mask4 (s / 2 ^ 56))

pub set_account_id_lem :
    (s v : ℕ) → s < 2 ^ 64 → v < 2 ^ 32 → set_account_id s v ≡ s / 2 ^ 32 * 2 ^ 32 + v
unfolding set_account_id
set_account_id_lem s v h k =
    ground (arith, mask32 v, replace_field 0 32 32 (s / 2 ^ 32) (s % 2 ^ 32) 0 v)

pub set_account_instance_lem :
    (s v : ℕ)
    → s < 2 ^ 64
    → v < 2 ^ 32
    → set_account_instance s v ≡ s / 2 ^ 52 * 2 ^ 52 + v % 2 ^ 20 * 2 ^ 32 + s % 2 ^ 32
unfolding set_account_instance
set_account_instance_lem s v h k = ground (
  arith,
  mask20 v,
  replace_field 32 20 12 (s / 2 ^ 52) (s / 2 ^ 32 % 2 ^ 20) (s % 2 ^ 32) (v % 2 ^ 20),
)

pub set_account_type_lem :
    (s v : ℕ)
    → s < 2 ^ 64
    → v < 2 ^ 32
    → set_account_type s v ≡ s / 2 ^ 56 * 2 ^ 56 + v % 2 ^ 4 * 2 ^ 52 + s % 2 ^ 52
unfolding set_account_type
set_account_type_lem s v h k = ground (
  arith,
  mask4 (extend32 v),
  replace_field 52 4 8 (s / 2 ^ 56) (s / 2 ^ 52 % 2 ^ 4) (s % 2 ^ 52) (v % 2 ^ 4),
)

pub set_account_universe_lem :
    (s v : ℕ)
    → s < 2 ^ 64
    → v < 2 ^ 32
    → set_account_universe s v ≡ s / 2 ^ 60 * 2 ^ 60 + v % 2 ^ 4 * 2 ^ 56 + s % 2 ^ 56
unfolding set_account_universe
set_account_universe_lem s v h k = ground (
  arith,
  mask4 (extend32 v),
  replace_field 56 4 4 (s / 2 ^ 60) (s / 2 ^ 56 % 2 ^ 4) (s % 2 ^ 56) (v % 2 ^ 4),
)

-- A uint64 as its four fields and the four bits above them, which no setter reaches.
pub record Parts : Type 0 where
  pub account_id : ℕ
  pub instance_ : ℕ
  pub account_type : ℕ
  pub universe : ℕ
  pub top : ℕ

abbrev pub parts : ℕ → Parts
parts s = record {
  account_id = get_account_id s;
  instance_ = get_account_instance s;
  account_type = get_account_type s;
  universe = get_account_universe s;
  top = s / 2 ^ 60;
}

abbrev pub IsSteamId : ℕ → Type 0
IsSteamId s = s < 2 ^ 64

pub set_account_id-lt : (s v : ℕ) → IsSteamId s → v < 2 ^ 32 → IsSteamId (set_account_id s v)
set_account_id-lt s v h k = omega (arith, set_account_id_lem s v h k)

pub set_account_instance-lt :
    (s v : ℕ) → IsSteamId s → v < 2 ^ 32 → IsSteamId (set_account_instance s v)
set_account_instance-lt s v h k = omega (arith, set_account_instance_lem s v h k)

pub set_account_type-lt : (s v : ℕ) → IsSteamId s → v < 2 ^ 32 → IsSteamId (set_account_type s v)
set_account_type-lt s v h k = omega (arith, set_account_type_lem s v h k)

pub set_account_universe-lt :
    (s v : ℕ) → IsSteamId s → v < 2 ^ 32 → IsSteamId (set_account_universe s v)
set_account_universe-lt s v h k = omega (arith, set_account_universe_lem s v h k)

pub ruleset gets = (
  arith, get_account_id_lem, get_account_instance_lem, get_account_type_lem,
  get_account_universe_lem,
)

pub ruleset sets = (
  set_account_id_lem, set_account_instance_lem, set_account_type_lem, set_account_universe_lem,
  set_account_id-lt, set_account_instance-lt, set_account_type-lt, set_account_universe-lt,
)

pub ruleset fields = (gets, sets)

-- On a uint64 each setter, given 32 bits, writes its own field, cut to the width of the field, and leaves the
-- other fields and the top four bits alone.
pub parts-set :
    (s v : ℕ)
    → IsSteamId s
    → v < 2 ^ 32
    → (parts (set_account_id s v) ≡ record (parts s) { account_id = v })
      × (parts (set_account_instance s v) ≡ record (parts s) { instance_ = v % 2 ^ 20 })
      × (parts (set_account_type s v) ≡ record (parts s) { account_type = v % 2 ^ 4 })
      × (parts (set_account_universe s v) ≡ record (parts s) { universe = v % 2 ^ 4 })
parts-set s v h k = (grind fields, grind fields, grind fields, grind fields)

-- The parts are all there is.
pub eq_of_parts : (s t : ℕ) → IsSteamId s → IsSteamId t → parts s ≡ parts t → s ≡ t
eq_of_parts s t hs ht e = grind (gets, e)

pub new_id_adv_sum :
    (a i u t : ℕ)
    → a < 2 ^ 32
    → i < 2 ^ 32
    → u < 2 ^ 32
    → t < 2 ^ 32
    → new_id_adv a i u t ≡ t % 2 ^ 4 * 2 ^ 52 + u % 2 ^ 4 * 2 ^ 56 + i % 2 ^ 20 * 2 ^ 32 + a
unfolding new_id_adv
new_id_adv_sum a i u t ha hi hu ht = grind (arith, sets)

-- NewIdAdv puts its four arguments of 32 bits, each cut to its width, into an id with nothing else set.
pub parts-new_id_adv :
    (a i u t : ℕ)
    → a < 2 ^ 32
    → i < 2 ^ 32
    → u < 2 ^ 32
    → t < 2 ^ 32
    → parts (new_id_adv a i u t) ≡ record {
      account_id = a;
      instance_ = i % 2 ^ 20;
      account_type = t % 2 ^ 4;
      universe = u % 2 ^ 4;
      top = 0;
    }
parts-new_id_adv a i u t ha hi hu ht = grind (gets, new_id_adv_sum a i u t ha hi hu ht)
