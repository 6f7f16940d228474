-- ===== src/UserGroup/Settings/Ranges.antt =====
-- The ranges of a rule, and the ID that stands for a missing one.
use policies.Prelude.{
  ℤ, ◌≡◌, ◌↔◌, true, List, [], ◌∷◌, arith, Any, here, there, ◌≤ℤ◌, leb_ℤ, Bool-cases, inl, inr,
  ◌&&◌,
}
use policies.UserGroup.Settings.{IdRange, RuleStrategy, is_valid_id, is_valid_id_in}

abbrev pub InRange : ℤ → IdRange → Type 0
InRange id r = (r.min ≤ℤ id) × (id ≤ℤ r.max)

is_valid_id_in_sound :
    (ranges : List IdRange) (id : ℤ) → is_valid_id_in ranges id ≡ true → Any (InRange id) ranges
unfolding is_valid_id_in
is_valid_id_in_sound [] id h = cc
is_valid_id_in_sound (r ∷ ranges) id h = elim (Bool-cases (leb_ℤ r.min id && leb_ℤ id r.max)) [
  | inl inside ↦ here (ground arith)
  | inr outside ↦ there (is_valid_id_in_sound ranges id (ground arith))
]

is_valid_id_in_complete :
    (ranges : List IdRange) (id : ℤ) → Any (InRange id) ranges → is_valid_id_in ranges id ≡ true
unfolding is_valid_id_in
is_valid_id_in_complete [] id h = elim h [ ]
is_valid_id_in_complete (r ∷ ranges) id (here (above, below)) = ground arith
is_valid_id_in_complete (r ∷ ranges) id (there later) =
    ground (arith, is_valid_id_in_complete ranges id later)

-- An ID is valid exactly when some range of the rule holds it, both ends included.
pub is_valid_id_iff :
    (s : RuleStrategy) (id : ℤ) → (is_valid_id s id ≡ true) ↔ Any (InRange id) s.ranges
unfolding is_valid_id
is_valid_id_iff s id = (is_valid_id_in_sound s.ranges id, is_valid_id_in_complete s.ranges id)
