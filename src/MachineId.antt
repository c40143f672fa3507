-- ===== src/MachineId.antt =====
-- machineid.go: the identity of the machine that a log-on presents, derived from the account's name.
-- SHA-1 is an argument, and its sum a list, which is [20]byte in Go.
pub mod Tokens
pub mod Shape
use go_steam_ws.Base.{
  ℕ, zero, suc, ◌+◌, ◌*◌, ◌%◌, ◌^◌, List, [], ◌∷◌, ◌++◌, bit_or, bit_xor, get_or, length,
}
use go_steam_ws.Social.Avatar.{hex_encode}

-- "MessageObject", "BB3", "FF2", "3B3" and "SteamMachineID|".
abbrev pub message_object : List ℕ
message_object = 77 ∷ 101 ∷ 115 ∷ 115 ∷ 97 ∷ 103 ∷ 101 ∷ 79 ∷ 98 ∷ 106 ∷ 101 ∷ 99 ∷ 116 ∷ []

abbrev pub bb3 : List ℕ
bb3 = 66 ∷ 66 ∷ 51 ∷ []

abbrev pub ff2 : List ℕ
ff2 = 70 ∷ 70 ∷ 50 ∷ []

abbrev pub b33 : List ℕ
b33 = 51 ∷ 66 ∷ 51 ∷ []

abbrev pub machine_id_salt : List ℕ
machine_id_salt =
    83 ∷ 116 ∷ 101 ∷ 97 ∷ 109 ∷ 77 ∷ 97 ∷ 99 ∷ 104 ∷ 105 ∷ 110 ∷ 101 ∷ 73 ∷ 68 ∷ 124 ∷ []

-- "SteamPrivateIP|" and "SteamMachineName|".
abbrev pub private_ip_salt : List ℕ
private_ip_salt =
    83 ∷ 116 ∷ 101 ∷ 97 ∷ 109 ∷ 80 ∷ 114 ∷ 105 ∷ 118 ∷ 97 ∷ 116 ∷ 101 ∷ 73 ∷ 80 ∷ 124 ∷ []

abbrev pub machine_name_salt : List ℕ
machine_name_salt =
    83 ∷ 116 ∷ 101 ∷ 97 ∷ 109 ∷ 77 ∷ 97 ∷ 99 ∷ 104 ∷ 105 ∷ 110 ∷ 101 ∷ 78 ∷ 97 ∷ 109 ∷ 101 ∷ 124
    ∷ []

-- "DESKTOP-"
abbrev pub desktop : List ℕ
desktop = 68 ∷ 69 ∷ 83 ∷ 75 ∷ 84 ∷ 79 ∷ 80 ∷ 45 ∷ []

-- 'A' to 'Z', then '0' to '9'.
abbrev pub alphabet : List ℕ
alphabet =
    65 ∷ 66 ∷ 67 ∷ 68 ∷ 69 ∷ 70 ∷ 71 ∷ 72 ∷ 73 ∷ 74 ∷ 75 ∷ 76 ∷ 77 ∷ 78 ∷ 79 ∷ 80 ∷ 81 ∷ 82 ∷ 83
    ∷ 84 ∷ 85 ∷ 86 ∷ 87 ∷ 88 ∷ 89 ∷ 90 ∷ 48 ∷ 49 ∷ 50 ∷ 51 ∷ 52 ∷ 53 ∷ 54 ∷ 55 ∷ 56 ∷ 57 ∷ []

-- 0xBAADF00D
abbrev pub steam_private_ip_magic : ℕ
steam_private_ip_magic = 3131961357

-- The buffer with the text and a zero byte behind it.
unfoldable pub write_kvc_string : List ℕ → List ℕ → List ℕ
write_kvc_string buf s = buf ++ (s ++ (0 ∷ []))

-- alphabet[int(sum[i])%len(alphabet)] for the first `n` bytes of the sum.
unfoldable pub name_chars : ℕ → List ℕ → List ℕ
name_chars zero sum = []
name_chars (suc n) sum =
    name_chars n sum ++ (get_or alphabet (get_or sum n 0 % length alphabet) 0 ∷ [])

-- 192.168.x.y, of the first two bytes of the sum.
unfoldable pub private_ip : List ℕ → ℕ
private_ip sum =
    bit_or (bit_or (bit_or (192 * 2 ^ 24) (168 * 2 ^ 16)) (get_or sum 0 0 * 2 ^ 8))
      (bit_or (get_or sum 1 0) 1)

module _ (sha1 : List ℕ → List ℕ) where
  -- The value of an entry: a hash of its key and the account's name.
  unfoldable pub machine_value : List ℕ → List ℕ → List ℕ
  machine_value key username = hex_encode (sha1 (machine_id_salt ++ (key ++ (124 ∷ username))))

  unfoldable pub write_machine_id_value : List ℕ → List ℕ → List ℕ → List ℕ
  unfolding write_kvc_string
  write_machine_id_value buf key username =
      write_kvc_string (write_kvc_string (buf ++ (1 ∷ [])) key) (machine_value key username)

  unfoldable pub generate_machine_id : List ℕ → List ℕ
  unfolding write_kvc_string write_machine_id_value
  generate_machine_id username =
      let buf = write_kvc_string (0 ∷ []) message_object in
      let buf = write_machine_id_value buf bb3 username in
      let buf = write_machine_id_value buf ff2 username in
      let buf = write_machine_id_value buf b33 username in (buf ++ (8 ∷ [])) ++ (8 ∷ [])

  unfoldable pub obfuscated_private_ip : List ℕ → ℕ
  unfolding private_ip
  obfuscated_private_ip username =
      bit_xor (private_ip (sha1 (private_ip_salt ++ username))) steam_private_ip_magic

  unfoldable pub machine_name : List ℕ → List ℕ
  unfolding name_chars
  machine_name username = desktop ++ name_chars 7 (sha1 (machine_name_salt ++ username))
