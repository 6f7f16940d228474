-- ===== src/Prelude/Text.antt =====
-- What the source uses of `str`: `split` at an ASCII character, `starts_with`, `ends_with`,
-- `contains`, `join`, `to_lowercase` and `parse::<i64>`.
pub mod Split
use Prim.Native.Nat.{ℕ, zero, suc, ◌+◌, ◌-◌, ◌*◌}
use Prim.Native.Char.{Char, code}
use Prim.Native.String
use Prim.Native.String.{String}
use mathlib.Core.Bool.{Bool, true, false, ◌&&◌, ◌||◌}
use mathlib.Core.Option.{Option, none, some}
use mathlib.Core.List.{List, [], ◌∷◌}
use mathlib.Core.Path.{◌≡◌, refl, ap, subst}
use mathlib.Core.Logic.{◌↔◌, inl, inr}
use text.Mathlib.Text.{◌==◌, starts_with}
use native.Mathlib.Omega.{arith}
use text.Mathlib.TextEquality.{eq_iff, starts_with_iff}
use policies.Prelude.Tests.{leb, ltb, Bool-cases, if◌then◌else◌}
use policies.Prelude.Int.{ℤ, pos, negsuc}

infixr 65 ◌+++◌
abbrev pub ◌+++◌ : String → String → String
s +++ t = String.◌++◌ s t

-- A character with this code.
abbrev pub is_code : ℕ → Char → Bool
is_code k c = leb (code c) k && leb k (code c)

push_front : Char → List String → List String
push_front c [] = []
push_front c (part ∷ parts) = String.◌∷◌ c part ∷ parts

-- The parts between the separators: one more than there are separators.
unfoldable pub split : ℕ → String → List String
unfolding push_front
split sep String.[] = "" ∷ []
split sep (String.◌∷◌ c s) =
    let rest = split sep s in if is_code sep c then "" ∷ rest else push_front c rest

unfoldable pub ends_with : String → String → Bool
ends_with String.[] suffix = suffix == ""
ends_with (String.◌∷◌ c s) suffix = (String.◌∷◌ c s) == suffix || ends_with s suffix

unfoldable pub join : String → List String → String
join sep [] = ""
join sep (part ∷ []) = part
join sep (part ∷ next ∷ parts) = part +++ (sep +++ join sep (next ∷ parts))

-- Decimal digits in front of what was read; `none` at any other character.
digits_from : ℕ → String → Option ℕ
digits_from n String.[] = some n
digits_from n (String.◌∷◌ c s) =
    let rest = digits_from (n * 10 + (code c - b'0')) s in
    if leb b'0' (code c) && leb (code c) b'9' then rest else none

digits : String → Option ℕ
unfolding digits_from
digits String.[] = none
digits (String.◌∷◌ c s) = digits_from 0 (String.◌∷◌ c s)

abbrev pub i64_max : ℕ
i64_max = 9223372036854775807

-- The number `n` with its sign, if an `i64` holds it.
to_i64 : Bool → Option ℕ → Option ℤ
to_i64 neg none = none
to_i64 false (some n) = if leb n i64_max then some (pos n) else none
to_i64 true (some n) =
    if leb n 0 then some (pos 0) else (if leb (n - 1) i64_max then some (negsuc (n - 1)) else none)

-- `s.parse::<i64>().ok()`: an optional sign, then at least one digit, in the range of `i64`.
unfoldable pub parse_i64 : String → Option ℤ
unfolding digits to_i64
parse_i64 String.[] = none
parse_i64 (String.◌∷◌ c s) =
    if is_code b'-' c
    then to_i64 true (digits s)
    else (if is_code b'+' c
        then to_i64 false (digits s)
        else to_i64 false (digits (String.◌∷◌ c s)))

-- The character at a place of a text.
pick : String → ℕ → Char → Char
pick String.[] n c = c
pick (String.◌∷◌ d s) zero c = d
pick (String.◌∷◌ d s) (suc n) c = pick s n c

to_lowercase_char : Char → Char
unfolding pick
to_lowercase_char c =
    if leb b'A' (code c) && leb (code c) b'Z'
    then pick "abcdefghijklmnopqrstuvwxyz" (code c - b'A') c
    else c

-- `to_lowercase` of an ASCII text, as the names of registries are.
unfoldable pub to_lowercase : String → String
unfolding to_lowercase_char
to_lowercase String.[] = String.[]
to_lowercase (String.◌∷◌ c s) = String.◌∷◌ (to_lowercase_char c) (to_lowercase s)

-- `contains` of an ASCII character.
unfoldable pub contains_char : ℕ → String → Bool
contains_char k String.[] = false
contains_char k (String.◌∷◌ c s) = is_code k c || contains_char k s

-- `contains` of a text.
unfoldable pub contains_text : String → String → Bool
contains_text String.[] part = part == ""
contains_text (String.◌∷◌ c s) part = starts_with (String.◌∷◌ c s) part || contains_text s part

-- The text without as many characters in front as the prefix has.
drop_front : String → String → String
drop_front s String.[] = s
drop_front String.[] (String.◌∷◌ d prefix) = String.[]
drop_front (String.◌∷◌ c s) (String.◌∷◌ d prefix) = drop_front s prefix

unfoldable pub strip_prefix : String → String → Option String
unfolding drop_front
strip_prefix s prefix = if starts_with s prefix then some (drop_front s prefix) else none

drop_front-+++ : (prefix s : String) → drop_front (prefix +++ s) prefix ≡ s
unfolding drop_front
drop_front-+++ String.[] s = String.append.nil s
drop_front-+++ (String.◌∷◌ c prefix) s =
    rw (String.append.cons c prefix s) (drop_front-+++ prefix s)

pub strip_prefix_iff :
    (s prefix rest : String) → (strip_prefix s prefix ≡ some rest) ↔ (prefix +++ rest ≡ s)
unfolding strip_prefix
strip_prefix_iff s prefix rest =
    let prefixed = starts_with_iff s prefix in
    (
      λ h. elim (Bool-cases (starts_with s prefix)) [
        | inl starts ↦
            let (other, whole) = prefixed.0 starts in
            let dropped : drop_front s prefix ≡ other =
              subst (λ t. drop_front t prefix ≡ other) whole (drop_front-+++ prefix other) in
            let same : other ≡ rest = ground (arith, dropped) in
            subst (λ t. prefix +++ t ≡ s) same whole
        | inr not_ ↦ absurd (ground arith)
      ],
      λ h.
          let starts = prefixed.1 (rest, h) in
          let dropped : drop_front s prefix ≡ rest =
            subst (λ t. drop_front t prefix ≡ rest) h (drop_front-+++ prefix rest) in
          rw starts (ap some dropped),
    )

pub differs : (s t : String) → (s == t) ≡ false → ¬ (s ≡ t)
differs s t other same = cc (other, (eq_iff s t).1 same)

decide_text : (s t : String) (b : Bool) → (s == t) ≡ b → Dec (s ≡ t)
decide_text s t true same = yes ((eq_iff s t).0 same)
decide_text s t false other = no (differs s t other)

unfoldable pub String-discrete : Discrete String
unfolding decide_text
String-discrete s t = decide_text s t (s == t) refl
