-- ===== src/Domain/Payments/Fingerprint.antt =====
-- app/domain/payments/fingerprint.py: comparable forms of addresses and transaction ids, and the
-- identity whose digest makes a transfer consumable once.
pub mod Decimals
pub mod Identity
use professional_bot.Prelude.{
  ℕ, zero, suc, ◌+◌, ◌/◌, ◌%◌, Bool, true, false, ◌&&◌, ◌||◌, List, [], ◌∷◌, ◌++◌, Option, none,
  some, leb, ltb, ◌==◌, if◌then◌else◌, contains,
}
use professional_bot.Prelude.Text.{
  Text, codes, is_empty, or_empty, lower, strip, starts_with, replace_code,
}
use professional_bot.Domain.Enums.NetworkCode
use professional_bot.Domain.Enums.NetworkCode.{NetworkCode, network_code_eq}
use professional_bot.Domain.Enums.ProviderCode
use professional_bot.Domain.Enums.ProviderCode.{ProviderCode, provider_code_eq}
use Decimals.{to_decimal_text}

-- `_HEX_ADDRESS_NETWORKS`
unfoldable pub is_hex_network : NetworkCode → Bool
is_hex_network NetworkCode.bep20 = true
is_hex_network NetworkCode.erc20 = true
is_hex_network NetworkCode.avaxc = true
is_hex_network NetworkCode.arbitrum = true
is_hex_network NetworkCode.polygon = true
is_hex_network _ = false

abbrev pub is_bech32 : Text → Bool
is_bech32 s =
    starts_with s (codes "bc1") || starts_with s (codes "ltc1") || starts_with s (codes "tb1")

-- The branches on the network, for a stripped address that is not in hex.
unfoldable pub normalize_by_network : Text → NetworkCode → Text
unfolding lower starts_with replace_code
normalize_by_network value NetworkCode.ton = replace_code b'/' b'_' (replace_code b'+' b'-' value)
normalize_by_network value NetworkCode.btc = if is_bech32 (lower value) then lower value else value
normalize_by_network value NetworkCode.ltc = if is_bech32 (lower value) then lower value else value
normalize_by_network value _ = value

-- The network is always given, as a member of the enum.
unfoldable pub normalize_address : Option Text → NetworkCode → Text
unfolding is_hex_network normalize_by_network strip lower starts_with
normalize_address address network =
    if is_empty (or_empty address)
    then []
    else let value = strip (or_empty address) in
      if is_hex_network network || starts_with value (codes "0x")
      then lower value
      else normalize_by_network value network

abbrev is_hex_digit : ℕ → Bool
is_hex_digit c = (leb b'0' c && leb c b'9') || (leb b'a' c && leb c b'f')

unfoldable pub all_hex : Text → Bool
all_hex [] = true
all_hex (c ∷ s) = is_hex_digit c && all_hex s

abbrev drop_two : Text → Text
drop_two (_ ∷ _ ∷ s) = s
drop_two _ = []

unfoldable pub normalize_txid : Text → Text
unfolding all_hex strip lower starts_with
normalize_txid txid =
    if is_empty txid
    then []
    else let stripped = strip txid in
      let value =
        if starts_with stripped (codes "0x") || starts_with stripped (codes "0X")
        then drop_two stripped
        else stripped in
      if all_hex (lower value) then lower value else value

-- The members' values.
unfoldable pub provider_value : ProviderCode → Text
provider_value ProviderCode.binance = codes "binance"
provider_value ProviderCode.binance_pay = codes "binance_pay"
provider_value ProviderCode.bybit = codes "bybit"
provider_value ProviderCode.okx = codes "okx"
provider_value ProviderCode.tron = codes "tron"
provider_value ProviderCode.evm = codes "evm"
provider_value ProviderCode.ton = codes "ton"
provider_value ProviderCode.solana = codes "solana"
provider_value ProviderCode.utxo = codes "utxo"

unfoldable pub network_value : NetworkCode → Text
network_value NetworkCode.trc20 = codes "trc20"
network_value NetworkCode.bep20 = codes "bep20"
network_value NetworkCode.erc20 = codes "erc20"
network_value NetworkCode.ton = codes "ton"
network_value NetworkCode.sol = codes "sol"
network_value NetworkCode.avaxc = codes "avaxc"
network_value NetworkCode.arbitrum = codes "arbitrum"
network_value NetworkCode.polygon = codes "polygon"
network_value NetworkCode.btc = codes "btc"
network_value NetworkCode.ltc = codes "ltc"
network_value NetworkCode.exchange_internal = codes "exchange_internal"

-- The text that is hashed: the four parts, joined by "|".
unfoldable pub transaction_identity : ProviderCode → NetworkCode → Text → ℕ → Text
unfolding provider_value network_value normalize_txid
transaction_identity provider network external_id log_index =
    provider_value provider
    ++ b'|'
      ∷ (network_value network
          ++ b'|' ∷ (normalize_txid external_id ++ b'|' ∷ to_decimal_text log_index))

-- `sha256` is the hexadecimal SHA-256 digest of a text.
module _ (sha256 : Text → Text) where
  unfoldable pub transaction_fingerprint : ProviderCode → NetworkCode → Text → ℕ → Text
  unfolding transaction_identity
  transaction_fingerprint provider network external_id log_index =
      sha256 (transaction_identity provider network external_id log_index)

  unfoldable pub payload_fingerprint : Text → Text
  unfolding strip
  payload_fingerprint payload = sha256 (strip payload)
