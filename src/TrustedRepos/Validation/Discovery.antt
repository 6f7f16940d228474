-- ===== src/TrustedRepos/Validation/Discovery.antt =====
-- Which images of a pod the policy looks at.
use policies.Prelude.{
  ◌≡◌, ◌↔◌, ◌⊎◌, inl, inr, refl, String, true, Option, none, some, is_some, List, [], ◌∷◌, ◌++◌,
  arith, All, Any, here, there, ◌∈◌, unwrap_or, Option-cases, Bool-cases, ◌==◌, eq_iff,
}
use policies.Prelude.Sets.Laws.{contains-append, contains-from_iter}
use policies.K8s.{Container, PodSpec}
use policies.TrustedRepos.Validation.{all_images, optional_images, some_images, discover_images}

module _ {X : Type 0} where
  -- Some of the containers has the image.
  abbrev pub Runs : String → List (Container X) → Type 0
  Runs image cs = Any (λ c. c.image ≡ some image) cs

  abbrev pub HaveImages : List (Container X) → Type 0
  HaveImages cs = All (λ c. is_some c.image ≡ true) cs

  abbrev pub RunsIfAll : String → List (Container X) → Type 0
  RunsIfAll image cs = HaveImages cs × Runs image cs

  -- The images of the containers, and those of the init containers and of the ephemeral containers
  -- where all of the kind have an image.
  abbrev pub IsDiscovered : PodSpec X → String → Type 0
  IsDiscovered p image =
      RunsIfAll image (unwrap_or [] p.init_containers)
      ⊎ RunsIfAll image (unwrap_or [] p.ephemeral_containers)
      ⊎ Runs image p.containers

  some_images-Runs :
      (cs : List (Container X)) (image : String) → image ∈ some_images cs → Runs image cs
  unfolding some_images
  some_images-Runs [] image m = cc
  some_images-Runs (c ∷ cs) image m = elim (Option-cases c.image) [
    | inl missing ↦ there (some_images-Runs cs image (ground arith))
    | inr (i, has) ↦ elim (Bool-cases (image == i)) [
      | inl same ↦ here (cc (has, (eq_iff image i).0 same))
      | inr other ↦ there (some_images-Runs cs image (ground arith))
    ]
  ]

  Runs-some_images :
      (cs : List (Container X)) (image : String) → Runs image cs → image ∈ some_images cs
  unfolding some_images
  Runs-some_images [] image h = elim h [ ]
  Runs-some_images (c ∷ cs) image (here has) = ground (arith, eq_iff image image)
  Runs-some_images (c ∷ cs) image (there later) = ground (arith, Runs-some_images cs image later)

  some_images_iff :
      (cs : List (Container X)) (image : String) → (image ∈ some_images cs) ↔ Runs image cs
  some_images_iff cs image = (some_images-Runs cs image, Runs-some_images cs image)

  -- All images are collected, or none.
  all_images-some_images :
      (cs : List (Container X)) → HaveImages cs → all_images cs ≡ some (some_images cs)
  unfolding all_images some_images
  all_images-some_images [] h = refl
  all_images-some_images (c ∷ cs) (has, h) = ground (arith, all_images-some_images cs h)

  all_images-HaveImages :
      (cs : List (Container X)) (images : List String) → all_images cs ≡ some images → HaveImages cs
  unfolding all_images
  all_images-HaveImages [] images h = tt
  all_images-HaveImages (c ∷ cs) images h = elim (Option-cases (all_images cs)) [
    | inl missing ↦ absurd (ground arith)
    | inr (rest, all) ↦ (ground arith, all_images-HaveImages cs rest all)
  ]

  collected_iff :
      (cs : List (Container X)) (image : String)
      → (image ∈ unwrap_or [] (all_images cs)) ↔ RunsIfAll image cs
  collected_iff cs image = (
    λ m. elim (Option-cases (all_images cs)) [
      | inl missing ↦ absurd (ground arith)
      | inr (images, all) ↦
          let have = all_images-HaveImages cs images all in
          (have, some_images-Runs cs image (ground (arith, all_images-some_images cs have)))
    ],
    λ h. ground (arith, all_images-some_images cs h.0, Runs-some_images cs image h.1),
  )

  optional_iff :
      (cs : Option (List (Container X))) (image : String)
      → (image ∈ optional_images cs) ↔ RunsIfAll image (unwrap_or [] cs)
  unfolding optional_images
  optional_iff none image = (λ m. cc, λ h. elim (h.1) [ ])
  optional_iff (some cs) image = collected_iff cs image

  -- The policy looks at the images of all containers; and at those of the init containers and of the
  -- ephemeral containers, but of each kind only if all containers of the kind have an image.
  pub discover_images-IsDiscovered_iff :
      (p : PodSpec X) (image : String) → (image ∈ discover_images p) ↔ IsDiscovered p image
  unfolding discover_images
  discover_images-IsDiscovered_iff p image =
      let inits = optional_images p.init_containers in
      let ephemerals = optional_images p.ephemeral_containers in
      let containers = some_images p.containers in
      ground (
        arith,
        contains-from_iter (inits ++ (ephemerals ++ containers)) image,
        contains-append inits (ephemerals ++ containers) image,
        contains-append ephemerals containers image,
        optional_iff p.init_containers image,
        optional_iff p.ephemeral_containers image,
        some_images_iff p.containers image,
      )
