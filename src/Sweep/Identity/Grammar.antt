-- ===== src/Sweep/Identity/Grammar.antt =====
-- crates/nanoeval/src/sweep.rs: which texts are agent identities.
use nanoeval.Sweep.Identity.{
  IsAgentId, AgentId, starts_alphanumeric, is_identifier, find_invalid, new_agent_id, IsIdentifier,
  IsAsciiAlphanumeric, IsIdentifierCode, is_ascii_alphanumeric,
}
use nanoeval.Prelude.{
  String, arith, code, false, none, ok, refl, ◌↔◌, ◌≡◌, ◌≢◌, subst, sym, true, ℕ,
}

is_ascii_alphanumeric_iff : (c : ℕ) → (is_ascii_alphanumeric c ≡ true) ↔ IsAsciiAlphanumeric c
unfolding is_ascii_alphanumeric
is_ascii_alphanumeric_iff c = ground arith

is_identifier_iff : (c : ℕ) → (is_identifier c ≡ true) ↔ IsIdentifierCode c
unfolding is_identifier
is_identifier_iff c = ground (arith, is_ascii_alphanumeric_iff c)

find_invalid-eq-none_iff : (s : String) → (find_invalid s ≡ none) ↔ IsIdentifier s
unfolding find_invalid
find_invalid-eq-none_iff String.[] = ground arith
find_invalid-eq-none_iff (String.◌∷◌ c s) =
    ground (arith, find_invalid-eq-none_iff s, is_identifier_iff (code c))

-- `AgentId::new` accepts exactly the texts that begin with an ASCII letter or digit and hold only
-- ASCII letters, digits, `.`, `_` and `-`, and the identity is the text itself.
pub new_agent_id-eq-ok_iff :
    (value : String) (id : AgentId)
    → (new_agent_id value ≡ ok id) ↔ (IsAgentId value × (id.text ≡ value))
unfolding new_agent_id
new_agent_id-eq-ok_iff String.[] id = ground arith
new_agent_id-eq-ok_iff (String.◌∷◌ c s) id =
    ground (arith, find_invalid-eq-none_iff (String.◌∷◌ c s), is_ascii_alphanumeric_iff (code c))

-- no path separator and no NUL
abbrev pub IsPlainText : String → Type 0
IsPlainText String.[] = Unit
IsPlainText (String.◌∷◌ c s) = (code c ≢ b'/') × (code c ≢ 0) × IsPlainText s

IsIdentifier-IsPlainText : (s : String) → IsIdentifier s → IsPlainText s
IsIdentifier-IsPlainText String.[] h = tt
IsIdentifier-IsPlainText (String.◌∷◌ c s) h =
    (ground arith, ground arith, IsIdentifier-IsPlainText s h.1)

IsAgentId-ne_dot : (s dots : String) → IsAgentId s → starts_alphanumeric dots ≡ false → s ≢ dots
unfolding starts_alphanumeric
IsAgentId-ne_dot String.[] dots h k e = absurd h
IsAgentId-ne_dot (String.◌∷◌ c s) dots h k e =
    let k' : starts_alphanumeric (String.◌∷◌ c s) ≡ false =
      subst (λ t. starts_alphanumeric t ≡ false) (sym e) k in
    let start = (is_ascii_alphanumeric_iff (code c)).1 h.0 in cc (start, k')

-- An accepted identity is safe as one component of a path: not empty, neither "." nor "..", and
-- free of `/` and of NUL.
pub new_agent_id_safe :
    (value : String) (id : AgentId)
    → new_agent_id value ≡ ok id
    → (id.text ≢ "") × (id.text ≢ ".") × (id.text ≢ "..") × IsPlainText id.text
unfolding starts_alphanumeric
new_agent_id_safe value id h =
    let (grammar, same_text) = (new_agent_id-eq-ok_iff value id).0 h in
    let valid : IsAgentId id.text = rw same_text grammar in
    (
      IsAgentId-ne_dot id.text "" valid refl,
      IsAgentId-ne_dot id.text "." valid refl,
      IsAgentId-ne_dot id.text ".." valid refl,
      plain id.text valid,
    )
  where
    plain : (s : String) → IsAgentId s → IsPlainText s
    plain String.[] v = absurd v
    plain (String.◌∷◌ c s) v = IsIdentifier-IsPlainText (String.◌∷◌ c s) v.1
