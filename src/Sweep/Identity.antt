-- ===== src/Sweep/Identity.antt =====
-- crates/nanoeval/src/sweep.rs: `AgentId::new`, the identity of one agent configuration.
pub mod Grammar
use nanoeval.Prelude.{
  Bool, Char, Option, Result, String, code, err, false, if◌then◌else◌, leb, none, not, ok, some,
  true, ℕ, ◌&&◌, ◌==◌, ◌||◌, ◌≡◌, ◌≤◌, ◌⊎◌,
}

pub record AgentId : Type 0 where
  pub text : String

pub data AgentIdError : Type 0 where
  empty : AgentIdError
  invalid_start : String → AgentIdError
  invalid_character : String → Char → AgentIdError

-- `char::is_ascii_alphanumeric`, on the code point
unfoldable pub is_ascii_alphanumeric : ℕ → Bool
is_ascii_alphanumeric c =
    leb b'0' c && leb c b'9' || leb b'A' c && leb c b'Z' || leb b'a' c && leb c b'z'

-- the characters that the `find` of `AgentId::new` passes over
unfoldable pub is_identifier : ℕ → Bool
unfolding is_ascii_alphanumeric
is_identifier c = is_ascii_alphanumeric c || (c == b'.' || c == b'_' || c == b'-')

unfoldable pub starts_alphanumeric : String → Bool
unfolding is_ascii_alphanumeric
starts_alphanumeric String.[] = false
starts_alphanumeric (String.◌∷◌ c s) = is_ascii_alphanumeric (code c)

-- `value.chars().find(..)`
unfoldable pub find_invalid : String → Option Char
unfolding is_identifier
find_invalid String.[] = none
find_invalid (String.◌∷◌ c s) = if is_identifier (code c) then find_invalid s else some c

is_empty : String → Bool
is_empty String.[] = true
is_empty (String.◌∷◌ c s) = false

or_accept : String → Option Char → Result AgentId AgentIdError
or_accept value none = ok (record { text = value })
or_accept value (some character) = err (invalid_character value character)

unfoldable pub new_agent_id : String → Result AgentId AgentIdError
unfolding is_empty starts_alphanumeric find_invalid or_accept
new_agent_id value =
    if is_empty value
    then err empty
    else if not (starts_alphanumeric value)
    then err (invalid_start value)
    else or_accept value (find_invalid value)

-- The grammar of an identity, by the ranges of the code points: digits, capital and small letters.
abbrev pub IsAsciiAlphanumeric : ℕ → Type 0
IsAsciiAlphanumeric c = ((48 ≤ c) × (c ≤ 57)) ⊎ ((65 ≤ c) × (c ≤ 90)) ⊎ ((97 ≤ c) × (c ≤ 122))

-- a letter, a digit, a hyphen, a full stop or an underscore
abbrev pub IsIdentifierCode : ℕ → Type 0
IsIdentifierCode c = IsAsciiAlphanumeric c ⊎ (c ≡ 45) ⊎ (c ≡ 46) ⊎ (c ≡ 95)

abbrev pub IsIdentifier : String → Type 0
IsIdentifier String.[] = Unit
IsIdentifier (String.◌∷◌ c s) = IsIdentifierCode (code c) × IsIdentifier s

abbrev pub IsAgentId : String → Type 0
IsAgentId String.[] = ⊥
IsAgentId (String.◌∷◌ c s) = IsAsciiAlphanumeric (code c) × IsIdentifier (String.◌∷◌ c s)
