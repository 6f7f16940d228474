-- ===== src/ImageCve/Settings/Counts.antt =====
-- What the settings of one severity are read from.
use policies.Prelude.{
  ◌≡◌, ◌↔◌, inl, inr, refl, ℕ, Bool-cases, none, some, ok, err, panic, ◌==◌, eq_iff, arith,
}
use policies.ImageCve.Settings.{
  SeverityCount, total, total_without_fixes, MapAccess, finished, broken, entry, access_error,
  one_of, visit, visit_map, serialize,
}

module _ {E : Type 0} where
  visit-both :
      (map : MapAccess E) (n m : ℕ) (c : SeverityCount) → ¬ (visit map (some n) (some m) ≡ ok c)
  unfolding visit access_error one_of
  visit-both finished n m c h = cc
  visit-both (broken e) n m c h = cc
  visit-both (entry key value map) n m c h = ground arith

  -- Once a number is read, only the end may follow.
  visit-total :
      (map : MapAccess E) (n : ℕ) (c : SeverityCount)
      → visit map (some n) none ≡ ok c
      → (map ≡ finished) × (c ≡ total n)
  unfolding visit access_error one_of
  visit-total finished n c h = (refl, cc)
  visit-total (broken e) n c h = cc
  visit-total (entry key (ok m) map) n c h = absurd (ground (arith, visit-both map n m c))
  visit-total (entry key (err e) map) n c h = absurd (ground arith)
  visit-total (entry key panic map) n c h = absurd (ground arith)

  visit-without :
      (map : MapAccess E) (n : ℕ) (c : SeverityCount)
      → visit map none (some n) ≡ ok c
      → (map ≡ finished) × (c ≡ total_without_fixes n)
  unfolding visit access_error one_of
  visit-without finished n c h = (refl, cc)
  visit-without (broken e) n c h = cc
  visit-without (entry key (ok m) map) n c h = absurd (ground (arith, visit-both map m n c))
  visit-without (entry key (err e) map) n c h = absurd (ground arith)
  visit-without (entry key panic map) n c h = absurd (ground arith)

  visit_map_read :
      (map : MapAccess E) (c : SeverityCount) → visit_map map ≡ ok c → map ≡ serialize c
  unfolding visit_map visit serialize access_error one_of
  visit_map_read finished c h = cc
  visit_map_read (broken e) c h = cc
  visit_map_read (entry key (err e) map) c h = absurd (ground arith)
  visit_map_read (entry key panic map) c h = absurd (ground arith)
  visit_map_read (entry key (ok n) map) c h = elim (Bool-cases (key == "total")) [
    | inl named ↦
        let (ended, same) = visit-total map n c (ground arith) in
        ground (arith, (eq_iff key "total").0 named)
    | inr other ↦ elim (Bool-cases (key == "totalWithoutFixes")) [
      | inl named ↦
          let (ended, same) = visit-without map n c (ground arith) in
          ground (arith, (eq_iff key "totalWithoutFixes").0 named)
      | inr unknown ↦ absurd (ground arith)
    ]
  ]

  visit_map-serialize : (c : SeverityCount) → visit_map (serialize {E = E} c) ≡ ok c
  unfolding visit_map visit serialize access_error one_of
  visit_map-serialize (total n) = refl
  visit_map-serialize (total_without_fixes n) = refl

  -- The settings of a severity are read from a map exactly when the map is what they are printed
  -- as: one entry, named "total" or "totalWithoutFixes", with a number.
  pub visit_map-serialize_iff :
      (map : MapAccess E) (c : SeverityCount) → (visit_map map ≡ ok c) ↔ (map ≡ serialize c)
  visit_map-serialize_iff map c = (visit_map_read map c, λ h. rw h (visit_map-serialize c))
