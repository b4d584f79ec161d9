-- ===== src/Utils.antt =====
-- backend/utils/validators.py
pub mod Idempotent
use bank_transaction_system.Base.{
  ℕ, ◌+◌, Bool, true, false, Option, none, some, List, [], ◌∷◌, ◌==◌, ◌&&◌, ◌||◌, not, leb, map,
  if◌then◌else◌,
}
use bank_transaction_system.Base.Rows.{length}
use bank_transaction_system.Base.Text.{Text, span}

-- `[a-zA-Z0-9]`
unfoldable pub is_alnum : ℕ → Bool
is_alnum c = leb b'a' c && leb c b'z' || leb b'A' c && leb c b'Z' || leb b'0' c && leb c b'9'

-- `[a-zA-Z0-9\-]`, `[a-zA-Z0-9.\-]` and `[a-zA-Z0-9._%+\-]`
unfoldable pub is_tld : ℕ → Bool
is_tld c = is_alnum c || c == b'-'

unfoldable pub is_domain : ℕ → Bool
is_domain c = is_tld c || c == b'.'

unfoldable pub is_local : ℕ → Bool
is_local c = is_domain c || c == b'_' || c == b'%' || c == b'+'

unfoldable pub all_in : (ℕ → Bool) → Text → Bool
all_in p [] = true
all_in p (c ∷ s) = p c && all_in p s

-- `$` also matches before one line feed at the end.
unfoldable pub before_end : Text → Text
before_end [] = []
before_end (c ∷ []) = if c == 10 then [] else c ∷ []
before_end (c ∷ d ∷ s) = c ∷ before_end (d ∷ s)

-- The last `.` parts the domain from the TLD, which has none.
abbrev pub dot_at : ℕ → Text → Option (Text × Text) → Option (Text × Text)
dot_at c s (some (domain, tld)) = some (c ∷ domain, tld)
dot_at c s none = if c == b'.' then some ([], s) else none

unfoldable pub last_dot : Text → Option (Text × Text)
last_dot [] = none
last_dot (c ∷ s) = dot_at c s (last_dot s)

abbrev pub is_nonempty : Text → Bool
is_nonempty [] = false
is_nonempty (c ∷ s) = true

-- `[a-zA-Z0-9.\-]+\.[a-zA-Z0-9\-]{2,63}`
unfoldable pub is_host : Option (Text × Text) → Bool
is_host none = false
is_host (some (domain, tld)) =
    is_nonempty domain
    && all_in is_domain domain
    && all_in is_tld tld
    && leb 2 (length tld)
    && leb (length tld) 63

abbrev pub after_local : Text × Text → Bool
after_local ([], rest) = false
after_local (c ∷ s, []) = false
after_local (c ∷ s, d ∷ rest) = d == b'@' && is_host (last_dot (before_end rest))

-- `_EMAIL_RE.match`
unfoldable pub email_matches : Text → Bool
unfolding last_dot before_end is_host
email_matches v = after_local (span is_local v)

-- `str.lower` on what the pattern admits, which is ASCII
unfoldable pub lower : ℕ → ℕ
lower c = if leb b'A' c && leb c b'Z' then c + 32 else c

-- `none` is the ValueError.
unfoldable pub validate_email : Text → Option Text
validate_email v = if email_matches v then some (map lower v) else none
