-- ===== src/Base/Text.antt =====
-- Texts as lists of their code points, for the code that reads them character by character.
use Prim.Native.Char.{code}
use Prim.Native.String.{String}
use Prim.Native.Nat.{ℕ}
use mathlib.Core.Bool.{Bool}
use mathlib.Core.List.{List, [], ◌∷◌}
use bank_transaction_system.Base.Compare.{if◌then◌else◌}

abbrev pub Text : Type 0
Text = List ℕ

abbrev pub codes : String → Text
codes String.[] = []
codes (String.◌∷◌ c s) = code c ∷ codes s

-- `[...]+`: the longest run of characters with `p`, and what follows
unfoldable pub span : (ℕ → Bool) → Text → Text × Text
span p [] = ([], [])
span p (c ∷ s) = let rest = span p s in if p c then (c ∷ rest.0, rest.1) else ([], c ∷ s)
