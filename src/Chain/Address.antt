-- ===== src/Chain/Address.antt =====
-- Nimiq addresses (wallet.py): the checksum, the grouped form, and the check that every address
-- passes before it is stored or compared.
pub mod Checksum
use nim_hunt.Prelude.{
  ℕ, zero, suc, ◌+◌, ◌-◌, ◌*◌, ◌/◌, ◌%◌, Bool, true, false, ◌&&◌, ◌||◌, not, Option, none, some,
  List, [], ◌∷◌, ◌++◌, leb, ◌==◌, if◌then◌else◌, length, filter, take,
}
use nim_hunt.Prelude.Text.{Text, codes, is_space, is_digit, strip, all, starts_with, is_one_of}
use nim_hunt.Chain.Python.{Python}

abbrev pub drop : ℕ → Text → Text
drop zero cs = cs
drop (suc n) [] = []
drop (suc n) (c ∷ cs) = drop n cs

-- NIMIQ_ADDRESS_ALPHABET: the digits and the capitals without I, O, W and Z.
unfoldable pub is_address_symbol : ℕ → Bool
is_address_symbol c =
    is_digit c || leb b'A' c && leb c b'Y' && not (c == b'I' || c == b'O' || c == b'W')

-- The decimal digits of one symbol; `none` where the code raises.
unfoldable pub symbol_digits : ℕ → Option (List ℕ)
symbol_digits c =
    if leb b'0' c && leb c b'9'
    then some ((c - 48) ∷ [])
    else if leb b'A' c && leb c b'Z'
    then some (((c - 55) / 10) ∷ ((c - 55) % 10) ∷ [])
    else none

unfoldable pub digits_of : Text → Option (List ℕ)
digits_of [] = some []
digits_of (c ∷ cs) = elim (digits_of cs) [
  | none ↦ none
  | some rest ↦ elim (symbol_digits c) [ none ↦ none | some ds ↦ some (ds ++ rest) ]
]

unfoldable pub iban_rearranged_numeric : Text → Option (List ℕ)
iban_rearranged_numeric address = digits_of (drop 4 address ++ take 4 address)

-- The loop, from a remainder.
unfoldable pub mod97_from : ℕ → List ℕ → ℕ
mod97_from r [] = r
mod97_from r (d ∷ ds) = mod97_from ((r * 10 + d) % 97) ds

unfoldable pub mod97_decimal_string : List ℕ → ℕ
mod97_decimal_string ds = mod97_from 0 ds

-- The two check digits are ASCII: of any other digit the rearrangement raises.
unfoldable pub has_valid_checksum : Text → Bool
has_valid_checksum address =
    length address == 36
    && starts_with (codes "NQ") address
    && all is_digit (take 2 (drop 2 address))
    && all is_address_symbol (drop 4 address)
    && elim (iban_rearranged_numeric address) [
      | none ↦ false
      | some ds ↦ mod97_decimal_string ds == 1
    ]

-- Groups of four symbols with a space between them.
unfoldable pub format_user_friendly_address : Text → Text
format_user_friendly_address (a ∷ b ∷ c ∷ d ∷ e ∷ rest) =
    a ∷ b ∷ c ∷ d ∷ b' ' ∷ format_user_friendly_address (e ∷ rest)
format_user_friendly_address cs = cs

-- The development flag, and the configured prefix of a Spot's fake deposit address.
pub record Placeholders : Type 0 where
  pub allowed : Bool
  pub deposit_prefix : Text

module _ (py : Python) where
  unfoldable pub normalise_address_candidate : Text → Text
  normalise_address_candidate value = filter (λ c. not (is_space c)) (py.upper (strip value))

  unfoldable pub is_valid_address : Text → Bool
  is_valid_address value = has_valid_checksum (normalise_address_candidate value)

  unfoldable pub is_allowed_dev_placeholder_address : Placeholders → Text → Bool
  is_allowed_dev_placeholder_address dev value =
      let candidate = py.upper (strip value) in
      let prefix = py.upper (strip dev.deposit_prefix) in
      starts_with (codes "NQ00 NIMHUNT DEV ") candidate
      && (not (length prefix == 0) && starts_with prefix candidate
          || (starts_with (codes "NQ00 NIMHUNT DEV CLAIM PAYOUT") candidate
              || starts_with (codes "NQ00 NIMHUNT DEV CANCELLATION FEE POOL") candidate))

  -- `none` where the code raises ValueError.
  unfoldable pub normalise_nimiq_address : Placeholders → Text → Option Text
  normalise_nimiq_address dev value =
      let raw = strip value in
      let address = normalise_address_candidate raw in
      if length raw == 0
      then none
      else if dev.allowed && is_allowed_dev_placeholder_address dev raw
      then some raw
      else if is_valid_address address
      then some (format_user_friendly_address address)
      else none
