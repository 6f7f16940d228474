-- ===== src/Prelude/Maps.antt =====
-- `HashMap<String, A>` and `BTreeMap<String, A>` as the list of their entries, in the order of
-- iteration.
use Prim.Native.String.{String}
use mathlib.Core.Path.{◌≡◌, refl}
use mathlib.Core.Bool.{Bool}
use mathlib.Core.Logic.{inl, inr}
use mathlib.Core.Option.{Option, none, some}
use mathlib.Core.List.{List, [], ◌∷◌}
use native.Mathlib.Omega.{arith}
use text.Mathlib.Text.{◌==◌}
use text.Mathlib.TextEquality.{eq_iff}
use policies.Prelude.Tests.{if◌then◌else◌, is_some, Bool-cases}

module _ {ℓ} {A : Type ℓ} where
  unfoldable pub get : String → List (String × A) → Option A
  get key [] = none
  get key (entry ∷ map) = let rest = get key map in if key == entry.0 then some entry.1 else rest

  unfoldable pub contains_key : String → List (String × A) → Bool
  unfolding get
  contains_key key map = is_some (get key map)

  -- A key that is there already gets the new value.
  unfoldable pub put : String → A → List (String × A) → List (String × A)
  put key value [] = (key, value) ∷ []
  put key value (entry ∷ map) =
      let rest = put key value map in if key == entry.0 then (key, value) ∷ map else entry ∷ rest

  pub get-put :
      (key : String) (value : A) (map : List (String × A)) (other : String)
      → get other (put key value map) ≡ (if other == key then some value else get other map)
  unfolding get put
  get-put key value [] other = ground arith
  get-put key value (entry ∷ map) other = ground (
    arith,
    eq_iff key entry.0,
    eq_iff other entry.0,
    eq_iff other key,
    get-put key value map other,
  )

  -- No key twice.
  abbrev pub IsKeyed : List (String × A) → Type ℓ
  IsKeyed [] = Unit
  IsKeyed (entry ∷ map) = (get entry.0 map ≡ none) × IsKeyed map

  pub put-IsKeyed :
      (key : String) (value : A) (map : List (String × A))
      → IsKeyed map
      → IsKeyed (put key value map)
  unfolding put get
  put-IsKeyed key value [] h = (refl, tt)
  put-IsKeyed key value (entry ∷ map) (fresh, h) = elim (Bool-cases (key == entry.0)) [
    | inl same ↦ rw same (ground (arith, eq_iff key entry.0), h)
    | inr other ↦ rw other (
      ground (arith, eq_iff key entry.0, eq_iff entry.0 key, get-put key value map entry.0),
      put-IsKeyed key value map h,
    )
  ]

  -- The first that is there.
  abbrev pub or_else : Option A → Option A → Option A
  or_else none other = other
  or_else (some a) other = some a
