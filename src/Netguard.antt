-- ===== src/Netguard.antt =====
-- `require_loopback` of labztna/netguard.py, and `RESOURCE_ID_PATTERN` of labztna/policy.py.
use ztna_lab.Base.{
  ℕ, Bool, true, false, ◌&&◌, ◌||◌, [], ◌∷◌, leb, ◌==◌, length, Text, codes, text_eq,
}

-- `host` is the literal of the loopback address: `ip_address` parses that text to an IPv4 loopback
-- address, so the comparison with it decides.
unfoldable pub is_loopback : Text → Bool
is_loopback host = text_eq host (codes "127.0.0.1")

abbrev pub is_alphanumeric : ℕ → Bool
is_alphanumeric c =
    (leb b'A' c && leb c b'Z') || ((leb b'a' c && leb c b'z') || (leb b'0' c && leb c b'9'))

-- The characters of the pattern after the first.
unfoldable pub is_id_character : ℕ → Bool
is_id_character c = is_alphanumeric c || (c == b'.' || (c == b'_' || c == b'-'))

unfoldable pub all_id_characters : Text → Bool
all_id_characters [] = true
all_id_characters (c ∷ t) = is_id_character c && all_id_characters t

-- `RESOURCE_ID_PATTERN.fullmatch(t) is not None`
unfoldable pub is_resource_id : Text → Bool
is_resource_id [] = false
is_resource_id (c ∷ t) = is_alphanumeric c && (leb (length t) 127 && all_id_characters t)
