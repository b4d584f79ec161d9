-- ===== src/Services/Backup/Url.antt =====
-- `_parse_db_url_for_pg_dump` of backend/app/services/backup_service.py. A text is the list of its
-- code points. Each class of characters that the two patterns repeat leaves out the character that
-- follows it, so that a run goes up to that character and nothing is tried twice.
use bank_transaction_system.Base.Text.{Text, codes, span}
use bank_transaction_system.Base.{
  ℕ, Bool, Option, none, some, List, [], ◌∷◌, ◌++◌, ◌==◌, ◌||◌, not, if◌then◌else◌,
}

-- a literal prefix
unfoldable pub after : Text → Text → Option Text
after [] s = some s
after (c ∷ cs) [] = none
after (c ∷ cs) (d ∷ s) = let rest = after cs s in if c == d then rest else none

unfoldable pub and_then : {A B : Type 0} → Option A → (A → Option B) → Option B
and_then none f = none
and_then (some a) f = f a

-- a run with one character at least
abbrev pub nonempty : Text × Text → Option (Text × Text)
nonempty ([], s) = none
nonempty (c ∷ run, s) = some (c ∷ run, s)

abbrev pub colon : ℕ
colon = b':'

abbrev pub at_sign : ℕ
at_sign = b'@'

abbrev pub slash : ℕ
slash = b'/'

abbrev pub not_colon : ℕ → Bool
not_colon c = not (c == colon)

abbrev pub not_colon_at : ℕ → Bool
not_colon_at c = not (c == colon || c == at_sign)

abbrev pub not_at : ℕ → Bool
not_at c = not (c == at_sign)

abbrev pub not_colon_slash : ℕ → Bool
not_colon_slash c = not (c == colon || c == slash)

abbrev pub not_question : ℕ → Bool
not_question c = not (c == b'?')

-- The scheme.
abbrev pub plain : Text
plain = codes "postgresql://"

abbrev pub or_else : {A : Type 0} → Option A → A → A
or_else none a = a
or_else (some b) a = b

-- what follows `^postgresql\+[^:]+://`
unfoldable pub strip_driver : Text → Option Text
strip_driver url =
    and_then (after (codes "postgresql+") url)
      (λ rest. and_then (nonempty (span not_colon rest)) (λ driver. after (codes "://") driver.1))

-- `re.sub(r"^postgresql\+[^:]+://", "postgresql://", database_url)`
unfoldable pub clean : Text → Text
unfolding strip_driver
clean url = elim (strip_driver url) [ none ↦ url | some rest ↦ plain ++ rest ]

-- `(?::(?P<password>[^@]*))?@`
unfoldable pub skip_password : Text → Option Text
skip_password s = elim (after (colon ∷ []) s) [
  | none ↦ after (at_sign ∷ []) s
  | some rest ↦ after (at_sign ∷ []) (span not_at rest).1
]

-- What `re.match` gives.
pub record Match : Type 0 where
  pub user : Text
  pub host : Text
  pub port : Option Text
  pub dbname : Text

-- `(?::(?P<port>\d+))?/`; `is_digit` is the `\d` of `re`, over all of Unicode
unfoldable pub read_port : (ℕ → Bool) → Text → Option (Option Text × Text)
read_port is_digit s = elim (after (colon ∷ []) s) [
  | none ↦ and_then (after (slash ∷ []) s) (λ rest. some (none, rest))
  | some rest ↦
      and_then (nonempty (span is_digit rest))
        (λ digits. and_then (after (slash ∷ []) digits.1) (λ path. some (some digits.0, path)))
]

unfoldable pub match : (ℕ → Bool) → Text → Option Match
match is_digit url = and_then (after plain url) (λ rest.
    and_then (nonempty (span not_colon_at rest)) (λ user.
      and_then (skip_password user.1) (λ address.
        and_then (nonempty (span not_colon_slash address)) (λ host.
          and_then (read_port is_digit host.1) (λ port.
            and_then (nonempty (span not_question port.1)) (λ dbname.
              some (record { user = user.0; host = host.0; port = port.0; dbname = dbname.0 })))))))

-- `match.group("port") or "5432"`: a port that is matched has a digit
abbrev pub pg_dump_args : Match → List Text
pg_dump_args m =
    codes "pg_dump"
    ∷ codes "-h"
    ∷ m.host
    ∷ codes "-p"
    ∷ or_else m.port (codes "5432")
    ∷ codes "-U"
    ∷ m.user
    ∷ codes "-d"
    ∷ m.dbname
    ∷ []

-- `none` is the ValueError.
unfoldable pub parse_db_url_for_pg_dump : (ℕ → Bool) → Text → Option (List Text)
parse_db_url_for_pg_dump is_digit database_url =
    and_then (match is_digit (clean database_url)) (λ m. some (pg_dump_args m))
