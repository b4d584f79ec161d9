-- ===== src/Utils/Idempotent.antt =====
-- The validation of an email (backend/utils/validators.py) once more, on what it has given.
use bank_transaction_system.Base.{
  ℕ, ◌≡◌, refl, Bool, true, Option, none, some, [], ◌∷◌, ◌==◌, arith, leb, map, Bool-cases, inl,
  inr,
}
use bank_transaction_system.Base.Rows.{length}
use bank_transaction_system.Base.Text.{Text, span}
use bank_transaction_system.Utils.{
  is_alnum, is_tld, is_domain, is_local, all_in, before_end, dot_at, last_dot, is_nonempty, is_host,
  after_local, email_matches, lower, validate_email,
}

lower_idem : (c : ℕ) → lower (lower c) ≡ lower c
unfolding lower
lower_idem c = ground arith

lower-alnum : (c : ℕ) → is_alnum (lower c) ≡ is_alnum c
unfolding lower is_alnum
lower-alnum c = ground arith

-- A character below the letters stays, and no other becomes it.
lower-low : (c k : ℕ) → leb k b'@' ≡ true → (lower c == k) ≡ (c == k)
unfolding lower
lower-low c k h = ground (arith, h)

lower-underscore : (c : ℕ) → (lower c == b'_') ≡ (c == b'_')
unfolding lower
lower-underscore c = ground arith

lower-tld : (c : ℕ) → is_tld (lower c) ≡ is_tld c
unfolding is_tld
lower-tld c = rw (lower-alnum c) (rw (lower-low c b'-' refl))

lower-domain : (c : ℕ) → is_domain (lower c) ≡ is_domain c
unfolding is_domain
lower-domain c = rw (lower-tld c) (rw (lower-low c b'.' refl))

lower-local : (c : ℕ) → is_local (lower c) ≡ is_local c
unfolding is_local
lower-local c =
    rw (lower-domain c)
      (rw (lower-underscore c) (rw (lower-low c b'%' refl) (rw (lower-low c b'+' refl))))

abbrev lowers : Text → Text
lowers = map lower

-- Two texts, in lower case.
abbrev both : Text × Text → Text × Text
both (a, b) = (lowers a, lowers b)

abbrev both_if : Option (Text × Text) → Option (Text × Text)
both_if none = none
both_if (some ab) = some (both ab)

lowers_idem : (s : Text) → lowers (lowers s) ≡ lowers s
lowers_idem [] = refl
lowers_idem (c ∷ s) = cc (lower_idem c, lowers_idem s)

length-lowers : (s : Text) → length (lowers s) ≡ length s
length-lowers [] = refl
length-lowers (c ∷ s) = rw (length-lowers s)

all_in-lowers :
    (p : ℕ → Bool) (s : Text) → ((c : ℕ) → p (lower c) ≡ p c) → all_in p (lowers s) ≡ all_in p s
unfolding all_in
all_in-lowers p [] same = refl
all_in-lowers p (c ∷ s) same = rw (same c) (rw (all_in-lowers p s same))

span-lowers :
    (p : ℕ → Bool) (s : Text) → ((c : ℕ) → p (lower c) ≡ p c) → span p (lowers s) ≡ both (span p s)
unfolding span
span-lowers p [] same = refl
span-lowers p (c ∷ s) same = elim (Bool-cases (p c)) [
  | inl hit ↦ rw (same c) (rw hit (rw (span-lowers p s same)))
  | inr miss ↦ rw (same c) (rw miss)
]

before_end-lowers : (s : Text) → before_end (lowers s) ≡ lowers (before_end s)
unfolding before_end
before_end-lowers [] = refl
before_end-lowers (c ∷ []) = elim (Bool-cases (c == 10)) [
  | inl hit ↦ rw (lower-low c 10 refl) (rw hit)
  | inr miss ↦ rw (lower-low c 10 refl) (rw miss)
]
before_end-lowers (c ∷ d ∷ s) = rw (before_end-lowers (d ∷ s))

dot_at-lowers :
    (c : ℕ) (s : Text) (o : Option (Text × Text))
    → dot_at (lower c) (lowers s) (both_if o) ≡ both_if (dot_at c s o)
dot_at-lowers c s (some ab) = refl
dot_at-lowers c s none = elim (Bool-cases (c == b'.')) [
  | inl hit ↦ rw (lower-low c b'.' refl) (rw hit)
  | inr miss ↦ rw (lower-low c b'.' refl) (rw miss)
]

last_dot-lowers : (s : Text) → last_dot (lowers s) ≡ both_if (last_dot s)
unfolding last_dot
last_dot-lowers [] = refl
last_dot-lowers (c ∷ s) = rw (last_dot-lowers s) (dot_at-lowers c s (last_dot s))

nonempty-lowers : (s : Text) → is_nonempty (lowers s) ≡ is_nonempty s
nonempty-lowers [] = refl
nonempty-lowers (c ∷ s) = refl

is_host-lowers : (o : Option (Text × Text)) → is_host (both_if o) ≡ is_host o
unfolding is_host
is_host-lowers none = refl
is_host-lowers (some (domain, tld)) = rw (nonempty-lowers domain) (
    rw (all_in-lowers is_domain domain lower-domain)
      (rw (all_in-lowers is_tld tld lower-tld) (rw (length-lowers tld))))

after_local-lowers : (ab : Text × Text) → after_local (both ab) ≡ after_local ab
after_local-lowers ([], rest) = refl
after_local-lowers (c ∷ s, []) = refl
after_local-lowers (c ∷ s, d ∷ rest) = rw (lower-low d b'@' refl) (
    rw (before_end-lowers rest)
      (rw (last_dot-lowers (before_end rest)) (rw (is_host-lowers (last_dot (before_end rest))))))

-- An email matches in lower case if and only if it does as it is written.
email_matches-lowers : (v : Text) → email_matches (lowers v) ≡ email_matches v
unfolding email_matches
email_matches-lowers v =
    rw (span-lowers is_local v lower-local) (after_local-lowers (span is_local v))

lowered_again : (v : Text) → email_matches v ≡ true → validate_email (lowers v) ≡ some (lowers v)
unfolding validate_email
lowered_again v good = rw (email_matches-lowers v) (rw good (rw (lowers_idem v)))

-- What the validation of an email gives, it accepts again, and leaves it as it is.
pub validate_email_again : (v w : Text) → validate_email v ≡ some w → validate_email w ≡ some w
unfolding validate_email
validate_email_again v w e = elim (Bool-cases (email_matches v)) [
  | inl good ↦
      let stored : lowers v ≡ w = ground (arith, good, e) in
      coe 0 1 (k. validate_email (stored k) ≡ some (stored k)) (lowered_again v good)
  | inr bad ↦ ground (arith, bad, e)
]
