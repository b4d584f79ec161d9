-- ===== src/Core.antt =====
-- `Settings.ALLOWED_ORIGINS` of backend/app/core/config.py.
pub mod Origins
use bank_transaction_system.Base.{
  ℕ, Bool, true, false, Option, none, some, List, [], ◌∷◌, ◌==◌, if◌then◌else◌,
}
use bank_transaction_system.Base.Text.{Text}

abbrev pub comma : ℕ
comma = b','

-- `lstrip` and `rstrip`, by what is white space
unfoldable pub lstrip : (ℕ → Bool) → Text → Text
lstrip is_space [] = []
lstrip is_space (c ∷ s) = if is_space c then lstrip is_space s else c ∷ s

abbrev pub unless_blank : Bool → ℕ → Text → Text
unless_blank true c [] = []
unless_blank true c (d ∷ s) = c ∷ d ∷ s
unless_blank false c s = c ∷ s

unfoldable pub rstrip : (ℕ → Bool) → Text → Text
rstrip is_space [] = []
rstrip is_space (c ∷ s) = unless_blank (is_space c) c (rstrip is_space s)

unfoldable pub strip : (ℕ → Bool) → Text → Text
unfolding rstrip lstrip
strip is_space s = rstrip is_space (lstrip is_space s)

abbrev pub put_first : ℕ → List Text → List Text
put_first c [] = (c ∷ []) ∷ []
put_first c (s ∷ pieces) = (c ∷ s) ∷ pieces

-- `raw.split(",")`
unfoldable pub split : Text → List Text
split [] = [] ∷ []
split (c ∷ s) = let rest = split s in if c == comma then [] ∷ rest else put_first c rest

-- `[o.strip() for o in ... if o.strip()]`
abbrev pub unless_empty : Text → List Text → List Text
unless_empty [] rest = rest
unless_empty (c ∷ s) rest = (c ∷ s) ∷ rest

unfoldable pub stripped : (ℕ → Bool) → List Text → List Text
stripped is_space [] = []
stripped is_space (o ∷ pieces) = unless_empty (strip is_space o) (stripped is_space pieces)

-- `json.loads` may raise: `none`.
unfoldable pub origins_of : (ℕ → Bool) → (Text → Option (List Text)) → Text → Option (List Text)
origins_of is_space json_loads [] = some []
origins_of is_space json_loads (c ∷ raw) =
    if c == b'[' then json_loads (c ∷ raw) else some (stripped is_space (split (c ∷ raw)))

-- `ALLOWED_ORIGINS`, from `ALLOWED_ORIGINS_RAW`
unfoldable pub allowed_origins :
    (ℕ → Bool) → (Text → Option (List Text)) → Text → Option (List Text)
allowed_origins is_space json_loads raw = origins_of is_space json_loads (strip is_space raw)
