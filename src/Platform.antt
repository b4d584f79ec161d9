-- ===== src/Platform.antt =====
-- What the services take from libraries and settings: hashlib, hmac, bcrypt and
-- backend/app/core/config.py; and the functions of backend/app/core/security.py over them.
use Prim.Native.Char.{code}
use bank_transaction_system.Base.{
  ℕ, zero, suc, ◌-◌, String, ◌≡◌, Bool, true, false, Option, none, some, ◌==◌, if◌then◌else◌,
}

pub record Platform : Type 0 where
  -- `hmac.new(key, message, sha256).hexdigest()`
  pub hmac_sha256 : String → String → String
  -- `sha256(text).hexdigest()`
  pub sha256 : String → String
  -- `bcrypt.hashpw(plain, salt)`; `none` is a ValueError, as for a password of over 72 bytes
  pub hashpw : String → String → Option String
  -- `bcrypt.checkpw(plain, hashed)`; `none` is a ValueError
  pub checkpw : String → String → Option Bool
  pub pan_hmac_key : String
  pub internal_service_api_key : String
  -- A password that has a hash passes against it.
  pub checkpw-hashpw :
      (plain salt hash : String) → hashpw plain salt ≡ some hash → checkpw plain hash ≡ some true

-- `text.replace("-", "")`
unfoldable pub strip_hyphens : String → String
strip_hyphens String.[] = String.[]
strip_hyphens (String.◌∷◌ c s) =
    let rest = strip_hyphens s in if code c == b'-' then rest else String.◌∷◌ c rest

-- `len(text)`
unfoldable pub char_count : String → ℕ
char_count String.[] = zero
char_count (String.◌∷◌ c s) = suc (char_count s)

unfoldable pub drop_chars : ℕ → String → String
drop_chars zero s = s
drop_chars (suc n) String.[] = String.[]
drop_chars (suc n) (String.◌∷◌ c s) = drop_chars n s

-- `number.replace("-", "")[-4:]`
unfoldable pub last4 : String → String
unfolding strip_hyphens char_count drop_chars
last4 number = let digits = strip_hyphens number in drop_chars (char_count digits - 4) digits

module _ ⦃p : Platform⦄ where
  unfoldable pub hash_password : String → String → Option String
  hash_password plain salt = p.hashpw plain salt

  unfoldable pub verify_password : String → String → Bool
  verify_password plain hashed = elim (p.checkpw plain hashed) [ none ↦ false | some b ↦ b ]

  unfoldable pub hash_session_token : String → String
  hash_session_token token = p.sha256 token

  unfoldable pub hmac_pan : String → String → String
  hmac_pan number key = p.hmac_sha256 key (strip_hyphens number)

  pub verify-hash :
      (plain salt hash : String)
      → hash_password plain salt ≡ some hash
      → verify_password plain hash ≡ true
  unfolding verify_password hash_password
  verify-hash plain salt hash h = rw (p.checkpw-hashpw plain salt hash h, verify_password)
