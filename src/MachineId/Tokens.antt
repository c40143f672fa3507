-- ===== src/MachineId/Tokens.antt =====
-- machineid.go: the blob as a document of binary KeyValues, read back token by token.
use go_steam_ws.Base.{
  ℕ, zero, suc, ◌≡◌, refl, Option, none, some, List, [], ◌∷◌, ◌++◌, ◌==◌, if◌then◌else◌, All,
  length,
}
use go_steam_ws.Rwu.{read_string}
use go_steam_ws.Rwu.Strings.{IsText, read_string-append}

-- A node that opens, an entry with its key and its value, and the end of a node.
pub data Token : Type 0 where
  opens : List ℕ → Token
  holds : List ℕ → List ℕ → Token
  ends : Token

abbrev pub IsToken : Token → Type 0
IsToken (opens name) = IsText name
IsToken (holds key value) = IsText key × IsText value
IsToken ends = Unit {0}

abbrev pub print_token : Token → List ℕ → List ℕ
print_token (opens name) rest = 0 ∷ (name ++ (0 ∷ rest))
print_token (holds key value) rest = 1 ∷ (key ++ (0 ∷ (value ++ (0 ∷ rest))))
print_token ends rest = 8 ∷ rest

abbrev pub print_tokens : List Token → List ℕ
print_tokens [] = []
print_tokens (t ∷ ts) = print_token t (print_tokens ts)

abbrev add_token : Token → Option (List Token) → Option (List Token)
add_token t none = none
add_token t (some ts) = some (t ∷ ts)

-- Reads at most `n` tokens; an unknown type byte is an error.
unfoldable pub read_tokens : ℕ → List ℕ → Option (List Token)
read_tokens n [] = some []
read_tokens zero (b ∷ bs) = none
read_tokens (suc n) (b ∷ bs) =
    let name = read_string bs in
    let value = read_string name.2 in
    let after_name = read_tokens n name.2 in
    let after_value = read_tokens n value.2 in
    let after_end = read_tokens n bs in
    if b == 0
    then add_token (opens name.0) after_name
    else if b == 1
    then add_token (holds name.0 value.0) after_value
    else if b == 8
    then add_token ends after_end
    else none

pub read_tokens-print_tokens :
    (ts : List Token) → All IsToken ts → read_tokens (length ts) (print_tokens ts) ≡ some ts
unfolding read_tokens
read_tokens-print_tokens [] h = refl
read_tokens-print_tokens (opens name ∷ ts) h =
    rw (read_string-append name (print_tokens ts) h.0, read_tokens-print_tokens ts h.1) refl
read_tokens-print_tokens (holds key value ∷ ts) h =
    rw
      (
        read_string-append key (value ++ (0 ∷ print_tokens ts)) h.0.0,
        read_string-append value (print_tokens ts) h.0.1,
        read_tokens-print_tokens ts h.1,
      )
      refl
read_tokens-print_tokens (ends ∷ ts) h = rw (read_tokens-print_tokens ts h.1) refl
