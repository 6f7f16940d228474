-- ===== src/Prelude/Fallible.antt =====
-- Fallible Rust code: a `Result`, or a panic, which ends the whole call.
use mathlib.Core.Path.{◌≡◌, refl}
use mathlib.Core.Logic.{◌↔◌}
use native.Mathlib.Omega.{arith}
use mathlib.Core.Bool.{Bool, true, false}
use Prim.Native.String.{String}
use mathlib.Core.List.{List, [], ◌∷◌}

pub data Outcome {ℓ κ} (E : Type ℓ) (A : Type κ) : Type (ℓ ⊔ κ) where
  ok : A → Outcome E A
  err : E → Outcome E A
  panic : Outcome E A

module _ {ℓ κ μ} {E : Type ℓ} {A : Type κ} {B : Type μ} where
  infixl 5 ◌>>=◌ ◌>>◌
  -- The operator `?`: an error or a panic ends the chain.
  abbrev pub ◌>>=◌ : Outcome E A → (A → Outcome E B) → Outcome E B
  panic >>= next = panic
  err reason >>= next = err reason
  ok value >>= next = next value

  abbrev pub ◌>>◌ : Outcome E A → Outcome E B → Outcome E B
  step >> next = step >>= (λ ignored. next)

  -- A chain that succeeds has a first step that succeeds.
  pub >>=-eq-ok :
      (step : Outcome E A) (next : A → Outcome E B) {result : B}
      → (step >>= next) ≡ ok result
      → (value : A) × (step ≡ ok value) × (next value ≡ ok result)
  >>=-eq-ok panic next done = cc
  >>=-eq-ok (err reason) next done = cc
  >>=-eq-ok (ok value) next done = (value, refl, done)

module _ {ℓ κ} {E : Type ℓ} {B : Type κ} where
  pub >>-eq-ok_iff :
      (m : Outcome E (Unit {0})) (k : Outcome E B) (b : B)
      → ((m >> k) ≡ ok b) ↔ ((m ≡ ok tt) × (k ≡ ok b))
  >>-eq-ok_iff (ok tt) k b = (λ h. (refl, h), λ h. h.1)
  >>-eq-ok_iff (err e) k b = (λ h. cc, λ h. cc (h.0))
  >>-eq-ok_iff panic k b = (λ h. cc, λ h. cc (h.0))

module _ {ℓ κ} {E : Type ℓ} {A : Type κ} where
  abbrev pub is_ok : Outcome E A → Bool
  is_ok (ok a) = true
  is_ok (err e) = false
  is_ok panic = false

-- `map_err`.
abbrev pub map_err : {E F A : Type 0} → (E → F) → Outcome E A → Outcome F A
map_err f (ok u) = ok u
map_err f (err e) = err (f e)
map_err f panic = panic

pub map_err_iff :
    {E F : Type 0} (f : E → F) (r : Outcome E (Unit {0})) → (map_err f r ≡ ok tt) ↔ (r ≡ ok tt)
map_err_iff f (ok tt) = (λ _. refl, λ _. refl)
map_err_iff f (err e) = (λ h. cc, λ h. cc)
map_err_iff f panic = (λ h. cc, λ h. cc)

pub >>-ne-panic :
    {E : Type 0} (m k : Outcome E (Unit {0})) → ¬ (m ≡ panic) → ¬ (k ≡ panic) → ¬ ((m >> k) ≡ panic)
>>-ne-panic (ok tt) k first second h = second h
>>-ne-panic (err e) k first second h = cc
>>-ne-panic panic k first second h = first refl

-- Four steps succeed if each of them does.
pub all_four_iff :
    {E : Type 0} (a b c d : Outcome E (Unit {0}))
    → ((a >> (b >> (c >> d))) ≡ ok tt) ↔ ((a ≡ ok tt) × (b ≡ ok tt) × (c ≡ ok tt) × (d ≡ ok tt))
all_four_iff a b c d =
    ground
      (arith, >>-eq-ok_iff a (b >> (c >> d)) tt, >>-eq-ok_iff b (c >> d) tt, >>-eq-ok_iff c d tt)

-- Six steps succeed if each of them does.
pub all_six_iff :
    {E : Type 0} (a b c d e f : Outcome E (Unit {0}))
    → ((a >> (b >> (c >> (d >> (e >> f))))) ≡ ok tt)
      ↔ ((a ≡ ok tt) × (b ≡ ok tt) × (c ≡ ok tt) × (d ≡ ok tt) × (e ≡ ok tt) × (f ≡ ok tt))
all_six_iff a b c d e f = ground (
  arith,
  >>-eq-ok_iff a (b >> (c >> (d >> (e >> f)))) tt,
  >>-eq-ok_iff b (c >> (d >> (e >> f))) tt,
  >>-eq-ok_iff c (d >> (e >> f)) tt,
  >>-eq-ok_iff d (e >> f) tt,
  >>-eq-ok_iff e f tt,
)

module _ {E : Type 0} where
  -- The error of what has a name goes in front of the others. A panic is left out: it is for steps
  -- that do not panic.
  abbrev pub cons_named_error :
      String → Outcome E (Unit {0}) → List (String × E) → List (String × E)
  cons_named_error name (ok u) errors = errors
  cons_named_error name (err e) errors = (name, e) ∷ errors
  cons_named_error name panic errors = errors

  pub cons_named_error_iff :
      (name : String) (o : Outcome E (Unit {0})) (errors : List (String × E))
      → ¬ (o ≡ panic)
      → (cons_named_error name o errors ≡ []) ↔ ((o ≡ ok tt) × (errors ≡ []))
  cons_named_error_iff name (ok tt) errors total = (λ h. (refl, h), λ h. h.1)
  cons_named_error_iff name (err e) errors total = (λ h. absurd (cc h), λ h. absurd (cc h.0))
  cons_named_error_iff name panic errors total = absurd (total refl)
