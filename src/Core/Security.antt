-- ===== src/Core/Security.antt =====
-- The API keys of app/core/security.py. The digest, an HMAC under the pepper, is a parameter.
use professional_bot.Prelude.{
  ℕ, zero, suc, Bool, true, false, not, ◌&&◌, ◌||◌, [], ◌∷◌, ◌++◌, Option, none, some, leb, nat_eqb,
  length, take, filter_by, any, if◌then◌else◌,
}
use professional_bot.Prelude.Text.{Text, codes, text_eqb, strip}

abbrev pub drop : ℕ → Text → Text
drop zero s = s
drop (suc n) [] = []
drop (suc n) (c ∷ s) = drop n s

-- `API_KEY_PREFIX_LIVE` and `API_KEY_PREFIX_TEST`
abbrev pub api_key_prefix : Bool → Text
api_key_prefix true = codes "rt_live"
api_key_prefix false = codes "rt_test"

abbrev pub is_alnum : ℕ → Bool
is_alnum c =
    (leb b'0' c && leb c b'9') || ((leb b'A' c && leb c b'Z') || (leb b'a' c && leb c b'z'))

-- `[A-Za-z0-9_-]`
abbrev pub is_url_code : ℕ → Bool
is_url_code c = is_alnum c || (nat_eqb c b'_' || nat_eqb c b'-')

abbrev pub all_codes : (ℕ → Bool) → Text → Bool
all_codes p s = not (any (λ c. not (p c)) s)

-- `_API_KEY_RE`: the prefix, eight letters or digits, and at least 32 characters of base64.
unfoldable pub matches_api_key : Text → Bool
unfolding text_eqb
matches_api_key s =
    (text_eqb (take 7 s) (api_key_prefix true) || text_eqb (take 7 s) (api_key_prefix false))
    && text_eqb (take 1 (drop 7 s)) (codes "_")
    && nat_eqb (length (take 8 (drop 8 s))) 8
    && all_codes is_alnum (take 8 (drop 8 s))
    && text_eqb (take 1 (drop 16 s)) (codes "_")
    && leb 32 (length (drop 17 s))
    && all_codes is_url_code (drop 17 s)

-- `parse_api_key`; `none` is the ValidationError.
unfoldable pub parse_api_key : Text → Option (Text × Text)
parse_api_key plaintext =
    let s = strip plaintext in
    if matches_api_key s then some (take 7 s, take 8 (drop 8 s)) else none

pub record GeneratedApiKey : Type 0 where
  pub plaintext : Text
  pub prefix : Text
  pub public_id : Text
  pub hashed : Text

-- `generate_api_key`, with the two random texts.
unfoldable pub generate_api_key :
    (hash_api_key : Text → Text) → Bool → Text → Text → GeneratedApiKey
generate_api_key hash_api_key live public_id random =
    let plaintext =
      api_key_prefix live
      ++ codes "_"
      ++ public_id
      ++ codes "_"
      ++ filter_by (λ c. not (nat_eqb c b'=')) random in
    record {
      plaintext = plaintext;
      prefix = api_key_prefix live;
      public_id = public_id;
      hashed = hash_api_key plaintext;
    }
