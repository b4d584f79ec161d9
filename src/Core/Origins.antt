-- ===== src/Core/Origins.antt =====
-- The comma-separated form of backend/app/core/config.py's origins, read back.
use bank_transaction_system.Base.{
  ℕ, ◌≡◌, refl, Bool, true, false, Option, some, List, [], ◌∷◌, ◌++◌, ◌==◌, map,
}
use mathlib.Core.List.{append-nil}
use bank_transaction_system.Base.Rows.{All, All-append}
use bank_transaction_system.Base.Text.{Text}
use bank_transaction_system.Core.{
  comma, lstrip, rstrip, unless_blank, strip, split, unless_empty, stripped, origins_of,
  allowed_origins,
}

abbrev NonEmpty : Text → Type 0
NonEmpty [] = ⊥
NonEmpty (c ∷ s) = Unit

abbrev NoComma : Text → Type 0
NoComma s = All (λ d. (d == comma) ≡ false) s

-- The origins after the first, each behind a comma and a padding.
abbrev pub join_rest : Text → List Text → Text
join_rest pad [] = []
join_rest pad (o ∷ more) = comma ∷ (pad ++ o) ++ join_rest pad more

kept-blank : (b : Bool) (d : ℕ) (t : Text) → NonEmpty t → unless_blank b d t ≡ d ∷ t
kept-blank true d [] h = elim h [ ]
kept-blank true d (c ∷ t) h = refl
kept-blank false d t h = refl

NonEmpty-++ : (s t : Text) → NonEmpty t → NonEmpty (s ++ t)
NonEmpty-++ [] t h = h
NonEmpty-++ (c ∷ s) t h = tt

NonEmpty-left : (s t : Text) → NonEmpty s → NonEmpty (s ++ t)
NonEmpty-left [] t h = elim h [ ]
NonEmpty-left (c ∷ s) t h = tt

split-comma : (w s : Text) → NoComma w → split (w ++ (comma ∷ s)) ≡ w ∷ split s
unfolding split
split-comma [] s h = refl
split-comma (c ∷ w) s h = rw (h.0) (rw (split-comma w s h.1))

split-last : (w : Text) → NoComma w → split w ≡ w ∷ []
unfolding split
split-last [] h = refl
split-last (c ∷ w) h = rw (h.0) (rw (split-last w h.1))

module _ (is_space : ℕ → Bool) where
  -- No white space and no comma, and one character at least.
  pub record IsOrigin (o : Text) : Type 0 where
    pub nonempty : NonEmpty o
    pub no_space : All (λ d. is_space d ≡ false) o
    pub no_comma : NoComma o

  -- White space that has no comma.
  pub record IsPad (pad : Text) : Type 0 where
    pub space : All (λ d. is_space d ≡ true) pad
    pub no_comma : NoComma pad

  rstrip-solid : (s : Text) → All (λ d. is_space d ≡ false) s → rstrip is_space s ≡ s
  unfolding rstrip
  rstrip-solid [] h = refl
  rstrip-solid (c ∷ s) h = rw (rstrip-solid s h.1) (rw (h.0))

  lstrip-solid : (s : Text) → All (λ d. is_space d ≡ false) s → lstrip is_space s ≡ s
  unfolding lstrip
  lstrip-solid [] h = refl
  lstrip-solid (c ∷ s) h = rw (h.0)

  lstrip-first :
      (o s : Text)
      → NonEmpty o
      → All (λ d. is_space d ≡ false) o
      → lstrip is_space (o ++ s) ≡ o ++ s
  unfolding lstrip
  lstrip-first [] s h k = elim h [ ]
  lstrip-first (c ∷ o) s h k = rw (k.0)

  lstrip-pad :
      (pad s : Text)
      → All (λ d. is_space d ≡ true) pad
      → lstrip is_space (pad ++ s) ≡ lstrip is_space s
  unfolding lstrip
  lstrip-pad [] s h = refl
  lstrip-pad (c ∷ pad) s h = rw (h.0) (lstrip-pad pad s h.1)

  -- What ends a text without white space keeps what is before it.
  rstrip-++ : (s t : Text) → NonEmpty t → rstrip is_space t ≡ t → rstrip is_space (s ++ t) ≡ s ++ t
  unfolding rstrip
  rstrip-++ [] t h k = k
  rstrip-++ (d ∷ s) t h k =
      rw (rstrip-++ s t h k) (kept-blank (is_space d) d (s ++ t) (NonEmpty-++ s t h))

  strip-pad : (pad o : Text) → IsPad pad → IsOrigin o → strip is_space (pad ++ o) ≡ o
  unfolding strip
  strip-pad pad o h k =
      rw (lstrip-pad pad o h.space) (rw (lstrip-solid o k.no_space) (rstrip-solid o k.no_space))

  abbrev Origins : List Text → Type 0
  Origins more = All IsOrigin more

  module _ (pad : Text) (padding : IsPad pad) where
    piece-NoComma : (o : Text) → IsOrigin o → NoComma (pad ++ o)
    piece-NoComma o k = All-append _ pad o padding.no_comma k.no_comma

    rstrip-join :
        (w : Text) (more : List Text)
        → NonEmpty w
        → rstrip is_space w ≡ w
        → Origins more
        → rstrip is_space (w ++ join_rest pad more) ≡ w ++ join_rest pad more
    rstrip-join w [] h k os = rw (append-nil w) k
    rstrip-join w (o ∷ more) h k os =
        let piece = pad ++ o in
        let ends : NonEmpty piece = NonEmpty-++ pad o os.0.nonempty in
        let rest =
          rstrip-join piece more ends (rstrip-++ pad o os.0.nonempty (rstrip-solid o os.0.no_space))
            os.1 in
        rstrip-++ w (comma ∷ piece ++ join_rest pad more) tt (
          rstrip-++ (comma ∷ []) (piece ++ join_rest pad more)
            (NonEmpty-left piece (join_rest pad more) ends) rest)

    split-join :
        (w : Text) (more : List Text)
        → NoComma w
        → Origins more
        → split (w ++ join_rest pad more) ≡ w ∷ map (λ o. pad ++ o) more
    split-join w [] h os = rw (append-nil w) (split-last w h)
    split-join w (o ∷ more) h os =
        rw (split-comma w ((pad ++ o) ++ join_rest pad more) h)
          (rw (split-join (pad ++ o) more (piece-NoComma o os.0) os.1))

    unless_empty-origin :
        (o : Text) (rest : List Text) → NonEmpty o → unless_empty o rest ≡ o ∷ rest
    unless_empty-origin [] rest h = elim h [ ]
    unless_empty-origin (c ∷ o) rest h = refl

    stripped-pieces :
        (more : List Text) → Origins more → stripped is_space (map (λ o. pad ++ o) more) ≡ more
    unfolding stripped
    stripped-pieces [] os = refl
    stripped-pieces (o ∷ more) os =
        rw (strip-pad pad o padding os.0)
          (rw (stripped-pieces more os.1) (unless_empty-origin o more os.0.nonempty))

    stripped-all :
        (o : Text) (more : List Text)
        → IsOrigin o
        → Origins more
        → stripped is_space (o ∷ map (λ o. pad ++ o) more) ≡ o ∷ more
    unfolding stripped
    stripped-all o more k os =
        rw (strip-pad [] o (record { space = tt; no_comma = tt }) k)
          (rw (stripped-pieces more os) (unless_empty-origin o more k.nonempty))

    strip-join :
        (o : Text) (more : List Text)
        → IsOrigin o
        → Origins more
        → strip is_space (o ++ join_rest pad more) ≡ o ++ join_rest pad more
    unfolding strip
    strip-join o more k os =
        rw (lstrip-first o (join_rest pad more) k.nonempty k.no_space)
          (rstrip-join o more k.nonempty (rstrip-solid o k.no_space) os)

    -- Where the padding is white space without a comma, and the origins are texts without white
    -- space or commas, one at least, the first of which does not begin with `[`: written with a
    -- comma and the padding between them, they are read back, in their order.
    pub origins-join :
        (json_loads : Text → Option (List Text)) (c : ℕ) (s : Text) (more : List Text)
        → (c == b'[') ≡ false
        → IsOrigin (c ∷ s)
        → All IsOrigin more
        → allowed_origins is_space json_loads ((c ∷ s) ++ join_rest pad more)
          ≡ some ((c ∷ s) ∷ more)
    unfolding allowed_origins origins_of
    origins-join json_loads c s more plain k os = rw (strip-join (c ∷ s) more k os) (
        rw plain (rw (split-join (c ∷ s) more k.no_comma os) (rw (stripped-all (c ∷ s) more k os))))
