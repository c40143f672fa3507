-- ===== src/MachineId/Shape.antt =====
-- machineid.go: what the blob, the address and the name are made of.
use go_steam_ws.Base.{
  ℕ, zero, suc, ◌+◌, ◌*◌, ◌/◌, ◌%◌, ◌^◌, ◌<◌, ◌≡◌, ◌≢◌, refl, List, [], ◌∷◌, ◌++◌, Bool, true, ◌&&◌,
  ◌||◌, leb, ltb, false, some, bit_or, bit_xor, get_or, length, length-append, append_assoc, All,
  arith,
}
use go_steam_ws.Base.Bits.{bit_or_split, bit_or-zero, zero-bit_or, bit_xor_cancel}
use go_steam_ws.Io.{IsByte}
use go_steam_ws.MachineId.{
  message_object, bb3, ff2, b33, alphabet, desktop, steam_private_ip_magic, private_ip_salt,
  machine_name_salt, write_kvc_string, machine_value, write_machine_id_value, generate_machine_id,
  private_ip, obfuscated_private_ip, name_chars, machine_name,
}
use go_steam_ws.MachineId.Tokens.{
  Token, opens, holds, ends, IsToken, print_tokens, read_tokens, read_tokens-print_tokens,
}
use go_steam_ws.Rwu.Strings.{IsText}
use go_steam_ws.Social.Avatar.{hex_digit, hex_encode}

byte_at : (sum : List ℕ) (i : ℕ) → All IsByte sum → get_or sum i 0 < 256
byte_at [] i h = omega arith
byte_at (b ∷ sum) zero h = h.0
byte_at (b ∷ sum) (suc i) h = byte_at sum i h.1

hex_digit_text : (n : ℕ) → hex_digit n ≢ 0
unfolding hex_digit
hex_digit_text n = ground arith

hex_encode-IsText : (bs : List ℕ) → IsText (hex_encode bs)
unfolding hex_encode
hex_encode-IsText [] = tt
hex_encode-IsText (b ∷ bs) =
    (hex_digit_text (b / 16), (hex_digit_text (b % 16), hex_encode-IsText bs))

bit_or_join : (k m q t : ℕ) → q < 2 ^ m → t < 2 ^ k → bit_or (q * 2 ^ k) t ≡ q * 2 ^ k + t
bit_or_join k m q t hq ht = ground (arith, bit_or_split k q 0 0 t, bit_or-zero m q, zero-bit_or t)

bit_or_digit : (r : ℕ) → r < 2 → bit_or r 1 ≡ 1
bit_or_digit zero h = refl
bit_or_digit (suc zero) h = refl
bit_or_digit (suc (suc r)) h = absurd (omega arith)

below_power : (n : ℕ) → n < 256 → n / 2 < 2 ^ 8
below_power n h = omega arith

bit_or_one : (n : ℕ) → n < 256 → bit_or n 1 ≡ n / 2 * 2 + 1
bit_or_one n h =
    ground (arith, bit_or_split 1 (n / 2) (n % 2) 0 1, bit_or-zero 8 (n / 2), bit_or_digit (n % 2))

private_ip_lem :
    (sum : List ℕ)
    → get_or sum 0 0 < 256
    → get_or sum 1 0 < 256
    → private_ip sum
      ≡ ((192 * 2 ^ 8 + 168) * 2 ^ 8 + get_or sum 0 0) * 2 ^ 8 + (get_or sum 1 0 / 2 * 2 + 1)
unfolding private_ip
private_ip_lem sum hx hy = ground (
  arith,
  bit_or_join 16 16 49320 (get_or sum 0 0 * 2 ^ 8),
  bit_or_join 8 24 (12625920 + get_or sum 0 0) (bit_or (get_or sum 1 0) 1),
  bit_or_one (get_or sum 1 0),
)

-- 'A' to 'Z' or '0' to '9'.
unfoldable pub letter : ℕ → Bool
letter c = (leb 65 c && leb c 90) || (leb 48 c && leb c 57)

unfoldable pub letters : List ℕ → Bool
unfolding letter
letters [] = true
letters (c ∷ cs) = letter c && letters cs

letters-get_or :
    (cs : List ℕ) (i : ℕ) → letters cs ≡ true → i < length cs → letters (get_or cs i 0 ∷ []) ≡ true
unfolding letters
letters-get_or [] i h hi = absurd (omega arith)
letters-get_or (c ∷ cs) zero h hi = ground arith
letters-get_or (c ∷ cs) (suc i) h hi = ground (arith, letters-get_or cs i)

letters-append : (cs ds : List ℕ) → letters (cs ++ ds) ≡ (letters cs && letters ds)
unfolding letters
letters-append [] ds = refl
letters-append (c ∷ cs) ds = ground (arith, letters-append cs ds)

alphabet-letters : letters alphabet ≡ true
unfolding letters
alphabet-letters = refl

letters-name_chars : (n : ℕ) (sum : List ℕ) → letters (name_chars n sum) ≡ true
unfolding letters name_chars
letters-name_chars zero sum = refl
letters-name_chars (suc n) sum = ground (
  arith,
  letters-append (name_chars n sum) (get_or alphabet (get_or sum n 0 % 36) 0 ∷ []),
  letters-name_chars n sum,
  letters-get_or alphabet (get_or sum n 0 % 36),
  alphabet-letters,
)

length-name_chars : (n : ℕ) (sum : List ℕ) → length (name_chars n sum) ≡ n
unfolding name_chars
length-name_chars zero sum = refl
length-name_chars (suc n) sum = ground (
  arith,
  length-name_chars n sum,
  length-append (name_chars n sum) (get_or alphabet (get_or sum n 0 % 36) 0 ∷ []),
)

no_zero : List ℕ → Bool
no_zero [] = true
no_zero (b ∷ bs) = leb 1 b && no_zero bs

no_zero-IsText : (s : List ℕ) → no_zero s ≡ true → IsText s
unfolding no_zero
no_zero-IsText [] h = tt
no_zero-IsText (b ∷ bs) h = (ground arith, no_zero-IsText bs (ground arith))

names-IsText : IsText message_object × IsText bb3 × IsText ff2 × IsText b33
unfolding no_zero
names-IsText = (
  no_zero-IsText message_object refl,
  no_zero-IsText bb3 refl,
  no_zero-IsText ff2 refl,
  no_zero-IsText b33 refl,
)

-- The text of bytes in hexadecimal: '0' to '9' and 'a' to 'f'.
abbrev pub digit_text : ℕ → ℕ
digit_text n = elim (ltb n 10) [ true ↦ 48 + n | false ↦ 87 + n ]

abbrev pub hex_text : List ℕ → List ℕ
hex_text [] = []
hex_text (b ∷ bs) = digit_text (b / 16) ∷ digit_text (b % 16) ∷ hex_text bs

hex_text-hex_encode : (bs : List ℕ) → hex_encode bs ≡ hex_text bs
unfolding hex_encode hex_digit
hex_text-hex_encode [] = refl
hex_text-hex_encode (b ∷ bs) = ground (arith, hex_text-hex_encode bs)

hex_text-IsText : (bs : List ℕ) → IsText (hex_text bs)
hex_text-IsText bs = rw (← hex_text-hex_encode bs) (hex_encode-IsText bs)

module _ (sha1 : List ℕ → List ℕ) where
  -- "MessageObject", and "BB3", "FF2" and "3B3" with the hashes of "SteamMachineID|BB3|",
  -- "SteamMachineID|FF2|" and "SteamMachineID|3B3|" followed by the name.
  unfoldable pub machine_tokens : List ℕ → List Token
  machine_tokens username =
      opens (77 ∷ 101 ∷ 115 ∷ 115 ∷ 97 ∷ 103 ∷ 101 ∷ 79 ∷ 98 ∷ 106 ∷ 101 ∷ 99 ∷ 116 ∷ [])
      ∷ holds (66 ∷ 66 ∷ 51 ∷ []) (
          hex_text (
            sha1 (
              83 ∷ 116 ∷ 101 ∷ 97 ∷ 109 ∷ 77 ∷ 97 ∷ 99 ∷ 104 ∷ 105 ∷ 110 ∷ 101 ∷ 73 ∷ 68 ∷ 124 ∷ 66
              ∷ 66 ∷ 51 ∷ 124 ∷ username)))
      ∷ holds (70 ∷ 70 ∷ 50 ∷ []) (
          hex_text (
            sha1 (
              83 ∷ 116 ∷ 101 ∷ 97 ∷ 109 ∷ 77 ∷ 97 ∷ 99 ∷ 104 ∷ 105 ∷ 110 ∷ 101 ∷ 73 ∷ 68 ∷ 124 ∷ 70
              ∷ 70 ∷ 50 ∷ 124 ∷ username)))
      ∷ holds (51 ∷ 66 ∷ 51 ∷ []) (
          hex_text (
            sha1 (
              83 ∷ 116 ∷ 101 ∷ 97 ∷ 109 ∷ 77 ∷ 97 ∷ 99 ∷ 104 ∷ 105 ∷ 110 ∷ 101 ∷ 73 ∷ 68 ∷ 124 ∷ 51
              ∷ 66 ∷ 51 ∷ 124 ∷ username)))
      ∷ ends
      ∷ ends
      ∷ []

  print_tokens-machine_tokens :
      (username : List ℕ)
      → generate_machine_id sha1 username ≡ print_tokens (machine_tokens username)
  unfolding generate_machine_id write_machine_id_value write_kvc_string machine_tokens machine_value
  print_tokens-machine_tokens username = simp (append_assoc, hex_text-hex_encode)

  machine_tokens-All : (username : List ℕ) → All IsToken (machine_tokens username)
  unfolding machine_tokens machine_value
  machine_tokens-All username = (
    names-IsText.0,
    (
      (names-IsText.1, hex_text-IsText _),
      ((names-IsText.2, hex_text-IsText _), ((names-IsText.3, hex_text-IsText _), (tt, (tt, tt)))),
    ),
  )

  -- The blob is a well formed document of binary KeyValues: read token by token, it is a node
  -- MessageObject with the entries BB3, FF2 and 3B3, in that order, each with the hexadecimal
  -- SHA-1 of "SteamMachineID|", its own key, "|" and the account's name, and with the two ends, and
  -- nothing follows.
  pub read_tokens-generate_machine_id :
      (username : List ℕ)
      → read_tokens 6 (generate_machine_id sha1 username) ≡ some (machine_tokens username)
  unfolding machine_tokens
  read_tokens-generate_machine_id username =
      rw (print_tokens-machine_tokens username)
        (read_tokens-print_tokens (machine_tokens username) (machine_tokens-All username))

  -- Undone with the magic number, the obfuscated address is 192.168.x.y with x the first byte of
  -- the hash and y odd, thus not 0, and the obfuscated address is one of 32 bits; provided that the
  -- hash is one of bytes.
  pub obfuscated_private_ip_lem :
      (username : List ℕ)
      → All IsByte (sha1 (private_ip_salt ++ username))
      → (obfuscated_private_ip sha1 username < 2 ^ 32)
        × (y : ℕ) × (y < 256)
        × (y % 2 ≡ 1)
        × (bit_xor (obfuscated_private_ip sha1 username) steam_private_ip_magic
            ≡ ((192 * 256 + 168) * 256 + get_or (sha1 (private_ip_salt ++ username)) 0 0) * 256 + y)
  unfolding obfuscated_private_ip
  obfuscated_private_ip_lem username h =
      let s = sha1 (private_ip_salt ++ username) in
      let ip = private_ip_lem s (byte_at s 0 h) (byte_at s 1 h) in
      let c =
        bit_xor_cancel 32 (private_ip s) steam_private_ip_magic
          (omega (arith, ip, byte_at s 0 h, byte_at s 1 h)) (omega arith) in
      (c.0, get_or s 1 0 / 2 * 2 + 1, omega (arith, byte_at s 1 h), omega arith, rw (c.1) ip)

  -- The name of the machine is "DESKTOP-" and 7 upper case letters or digits, whatever the hash.
  pub machine_name-letters :
      (username : List ℕ)
      → (cs : List ℕ) × (machine_name sha1 username ≡ desktop ++ cs)
        × (length cs ≡ 7)
        × (letters cs ≡ true)
  unfolding machine_name
  machine_name-letters username =
      let sum = sha1 (machine_name_salt ++ username) in
      (name_chars 7 sum, refl, length-name_chars 7 sum, letters-name_chars 7 sum)
