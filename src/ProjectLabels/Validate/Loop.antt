-- ===== src/ProjectLabels/Validate/Loop.antt =====
-- The loop over the labels of a project: what it sets, and when it notes a change.
use policies.Prelude.{
  ◌≡◌, ◌↔◌, refl, sym, ◌∙◌, String, Bool, true, Option, none, some, [], ◌∷◌, ◌⊎◌, inl, inr, ◌==◌,
  eq_iff, get, get-put, IsKeyed, or_else, strip_prefix, strip_prefix_iff, ◌+++◌, arith, Bool-cases,
  Option-cases, if◌then◌else◌,
}
use policies.ProjectLabels.Validate.{Labels, propagate_label, propagate_all}

-- What a project sets a label of its namespaces to.
abbrev pub propagated : Labels → String → Option String
propagated project_labels key = get ("propagate." +++ key) project_labels

-- A label that the project sets and that is missing or has another value.
abbrev pub Differs : Labels → Labels → String → Type 0
Differs project_labels labels key =
    (value : String) × (propagated project_labels key ≡ some value)
    × (¬ (get key labels ≡ some value))

propagated-none :
    (entry : String × String) (project_labels : Labels) (key : String)
    → strip_prefix entry.0 "propagate." ≡ none
    → propagated (entry ∷ project_labels) key ≡ propagated project_labels key
unfolding get
propagated-none entry project_labels key stripped =
    ground (arith, strip_prefix_iff entry.0 "propagate." key, eq_iff ("propagate." +++ key) entry.0)

propagated-some :
    (entry : String × String) (project_labels : Labels) (patched_key key : String)
    → strip_prefix entry.0 "propagate." ≡ some patched_key
    → propagated (entry ∷ project_labels) key
      ≡ (if key == patched_key then some entry.1 else propagated project_labels key)
unfolding get
propagated-some entry project_labels patched_key key stripped = ground (
  arith,
  strip_prefix_iff entry.0 "propagate." key,
  strip_prefix_iff entry.0 "propagate." patched_key,
  eq_iff ("propagate." +++ key) entry.0,
  eq_iff key patched_key,
)

get-propagate_label :
    (key value : String) (labels : Labels) (changed : Bool) (other : String)
    → get other (propagate_label key value labels changed).0
      ≡ (if other == key then some value else get other labels)
unfolding propagate_label
get-propagate_label key value labels changed other = elim (Option-cases (get key labels)) [
  | inl missing ↦ ground (arith, get-put key value labels other)
  | inr (old, has) ↦
      ground (arith, get-put key value labels other, eq_iff other key, eq_iff old value)
]

propagate_label-true_iff :
    (key value : String) (labels : Labels) (changed : Bool)
    → ((propagate_label key value labels changed).1 ≡ true)
      ↔ ((changed ≡ true) ⊎ (¬ (get key labels ≡ some value)))
unfolding propagate_label
propagate_label-true_iff key value labels changed = elim (Option-cases (get key labels)) [
  | inl missing ↦ ground arith
  | inr (old, has) ↦ ground (arith, eq_iff old value)
]

pub get-propagate_all :
    (project_labels labels : Labels) (changed : Bool) (key : String)
    → IsKeyed project_labels
    → get key (propagate_all project_labels labels changed).0
      ≡ or_else (propagated project_labels key) (get key labels)
unfolding propagate_all get
get-propagate_all [] labels changed key keyed = refl
get-propagate_all (entry ∷ project_labels) labels changed key (fresh, keyed) =
    elim (Option-cases (strip_prefix entry.0 "propagate.")) [
      | inl other ↦ ground (
        arith,
        get-propagate_all project_labels labels changed key keyed,
        propagated-none entry project_labels key other,
      )
      | inr (patched_key, stripped) ↦
          let next = propagate_label patched_key entry.1 labels changed in
          ground (
            arith,
            get-propagate_all project_labels next.0 next.1 key keyed,
            propagated-some entry project_labels patched_key key stripped,
            get-propagate_label patched_key entry.1 labels changed key,
            strip_prefix_iff entry.0 "propagate." patched_key,
            eq_iff key patched_key,
            Option-cases (propagated project_labels key),
          )
    ]

module _ (entry : String × String) (project_labels labels : Labels) (changed : Bool)
    (patched_key : String) (fresh : get entry.0 project_labels ≡ none)
    (stripped : strip_prefix entry.0 "propagate." ≡ some patched_key) where
  abbrev next : Labels × Bool
  next = propagate_label patched_key entry.1 labels changed

  Differs-later :
      (key : String)
      → Differs project_labels next.0 key
      → Differs (entry ∷ project_labels) labels key
  Differs-later key (value, has, other) =
      let same = propagated-some entry project_labels patched_key key stripped in
      let set = get-propagate_label patched_key entry.1 labels changed key in
      let whole = strip_prefix_iff entry.0 "propagate." patched_key in
      let keys = eq_iff key patched_key in
      (value, ground (arith, same, whole, keys), λ h. other (ground (arith, set, whole, keys)))

  Differs-first :
      ¬ (get patched_key labels ≡ some entry.1)
      → Differs (entry ∷ project_labels) labels patched_key
  Differs-first other =
      let same = propagated-some entry project_labels patched_key patched_key stripped in
      (entry.1, ground (arith, same, eq_iff patched_key patched_key), other)

  Differs-split :
      (key : String)
      → Differs (entry ∷ project_labels) labels key
      → (¬ (get patched_key labels ≡ some entry.1)) ⊎ Differs project_labels next.0 key
  Differs-split key (value, has, other) =
      let same = propagated-some entry project_labels patched_key key stripped in
      let set = get-propagate_label patched_key entry.1 labels changed key in
      let keys = eq_iff key patched_key in
      elim (Bool-cases (key == patched_key)) [
        | inl first ↦
            let patched_ : key ≡ patched_key = keys.0 first in
            let value_ : value ≡ entry.1 = ground (arith, same) in
            inl (λ h. other (cc (patched_, value_, h)))
        | inr later ↦ inr (value, ground (arith, same), λ h. other (ground (arith, set)))
      ]

pub propagate_all-Differs_iff :
    (project_labels labels : Labels) (changed : Bool)
    → IsKeyed project_labels
    → ((propagate_all project_labels labels changed).1 ≡ true)
      ↔ ((changed ≡ true) ⊎ ((key : String) × Differs project_labels labels key))
unfolding propagate_all get
propagate_all-Differs_iff [] labels changed keyed =
    (λ h. inl h, λ h. elim h [ inl same ↦ same | inr (key, (value, has, other)) ↦ absurd (cc has) ])
propagate_all-Differs_iff (entry ∷ project_labels) labels changed (fresh, keyed) =
    elim (Option-cases (strip_prefix entry.0 "propagate.")) [
      | inl other ↦
          let rest = propagate_all-Differs_iff project_labels labels changed keyed in
          let same : (key : String)
              → propagated (entry ∷ project_labels) key ≡ propagated project_labels key =
            λ key. propagated-none entry project_labels key other in
          rw (other, propagate_all)
            (
              λ h. elim (rest.0 h) [
                | inl was ↦ inl was
                | inr (key, (value, has, differs)) ↦ inr (key, (value, same key ∙ has, differs))
              ],
              λ h. rest.1 (elim h [
                | inl was ↦ inl was
                | inr (key, (value, has, differs)) ↦
                    inr (key, (value, sym (same key) ∙ has, differs))
              ]),
            )
      | inr (patched_key, stripped) ↦
          let next = propagate_label patched_key entry.1 labels changed in
          let rest = propagate_all-Differs_iff project_labels next.0 next.1 keyed in
          let first = propagate_label-true_iff patched_key entry.1 labels changed in
          rw (stripped, propagate_all)
            (
              λ h. elim (rest.0 h) [
                | inl now ↦ elim (first.0 now) [
                  | inl was ↦ inl was
                  | inr other ↦ inr (
                    patched_key,
                    Differs-first entry project_labels labels changed patched_key fresh stripped
                        other,
                  )
                ]
                | inr (key, differs) ↦ inr (
                  key,
                  Differs-later entry project_labels labels changed patched_key fresh stripped key
                      differs,
                )
              ],
              λ h. rest.1 (elim h [
                | inl was ↦ inl (first.1 (inl was))
                | inr (key, differs) ↦
                    elim (Differs-split entry project_labels labels changed patched_key fresh
                      stripped key differs) [
                        | inl other ↦ inl (first.1 (inr other))
                        | inr later ↦ inr (key, later)
                      ]
              ]),
            )
    ]
