-- ===== src/Prelude/Text/Split.antt =====
-- Laws of `split`.
use Prim.Native.Nat.{ℕ}
use Prim.Native.String.{String}
use mathlib.Core.Path.{◌≡◌, refl}
use mathlib.Core.Bool.{Bool, true, false}
use mathlib.Core.List.{List, [], ◌∷◌}
use native.Mathlib.Omega.{arith}
use policies.Prelude.Text.{split, push_front, is_code}

-- There is always a first part.
pub split-cons :
    (sep : ℕ) (s : String) → (part : String) × (parts : List String) × (split sep s ≡ part ∷ parts)
unfolding split push_front
split-cons sep String.[] = ("", [], refl)
split-cons sep (String.◌∷◌ c s) = step (is_code sep c) refl (split-cons sep s)
  where
    step :
        (b : Bool)
        → is_code sep c ≡ b
        → ((part : String) × (parts : List String) × (split sep s ≡ part ∷ parts))
        → (part : String) × (parts : List String) × (split sep (String.◌∷◌ c s) ≡ part ∷ parts)
    step true e (part, parts, h) = ("", part ∷ parts, ground arith)
    step false e (part, parts, h) = (String.◌∷◌ c part, parts, ground arith)
