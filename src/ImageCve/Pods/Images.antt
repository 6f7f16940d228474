-- ===== src/ImageCve/Pods/Images.antt =====
-- Which images the policy looks at.
use policies.Prelude.{
  ◌≡◌, ◌↔◌, ◌⊎◌, inl, inr, refl, String, Option, none, some, List, [], ◌∷◌, ◌++◌, contains, ◌∈◌,
  unwrap_or, ◌==◌, eq_iff, All, Any, here, there, arith, Bool-cases,
}
use policies.Prelude.Sets.Laws.{contains-append}
use policies.K8s.{Container, PodSpec}
use policies.ImageCve.Pods.{unwrap_images, optional_images, extend, images_of}

module _ {X : Type 0} where
  abbrev pub HasImage : Container X → Type 0
  HasImage c = (image : String) × (c.image ≡ some image)

  -- Every container of the three kinds has an image.
  abbrev pub HaveImages : PodSpec X → Type 0
  HaveImages p =
      All HasImage p.containers
      × All HasImage (unwrap_or [] p.init_containers)
      × All HasImage (unwrap_or [] p.ephemeral_containers)

  abbrev pub RunsIn : List (Container X) → String → Type 0
  RunsIn cs image = Any (λ c. c.image ≡ some image) cs

  -- Some container of the three kinds runs the image.
  abbrev pub Runs : PodSpec X → String → Type 0
  Runs p image =
      RunsIn p.containers image
      ⊎ RunsIn (unwrap_or [] p.init_containers) image
      ⊎ RunsIn (unwrap_or [] p.ephemeral_containers) image

  -- The images of containers, in a list.
  abbrev Collects : Option (List String) → List (Container X) → Type 0
  Collects o cs =
      (images : List String) × (o ≡ some images)
      × ((image : String) → (image ∈ images) ↔ RunsIn cs image)

  unwrap_images-Collects :
      (cs : List (Container X)) → All HasImage cs → Collects (unwrap_images cs) cs
  unfolding unwrap_images
  unwrap_images-Collects [] have = ([], refl, λ image. (λ h. absurd (cc h), λ h. elim h [ ]))
  unwrap_images-Collects (c ∷ cs) ((first, has), have) =
      let (images, collected, exact) = unwrap_images-Collects cs have in
      (
        first ∷ images,
        ground arith,
        λ image. (
          λ h. elim (Bool-cases (image == first)) [
            | inl same ↦ here (ground (arith, eq_iff image first))
            | inr other ↦ there ((exact image).0 (ground arith))
          ],
          λ h. elim h [
            | here runs ↦ ground (arith, eq_iff image first)
            | there later ↦ let m = (exact image).1 later in ground arith
          ],
        ),
      )

  optional_images-Collects :
      (o : Option (List (Container X)))
      → All HasImage (unwrap_or [] o)
      → Collects (optional_images o) (unwrap_or [] o)
  unfolding optional_images
  optional_images-Collects none have = ([], refl, λ image. (λ h. absurd (cc h), λ h. elim h [ ]))
  optional_images-Collects (some cs) have = unwrap_images-Collects cs have

  pub images_of-Runs :
      (p : PodSpec X)
      → HaveImages p
      → (images : List String) × (images_of p ≡ some images)
        × ((image : String) → (image ∈ images) ↔ Runs p image)
  unfolding images_of extend
  images_of-Runs p (a, b, c) =
      let (xs, some_xs, exact_xs) = unwrap_images-Collects p.containers a in
      let (ys, some_ys, exact_ys) = optional_images-Collects p.init_containers b in
      let (zs, some_zs, exact_zs) = optional_images-Collects p.ephemeral_containers c in
      (
        (xs ++ ys) ++ zs,
        rw (some_xs, some_ys, some_zs) refl,
        λ image.
            let outer = contains-append (xs ++ ys) zs image in
            let inner = contains-append xs ys image in
            let x = exact_xs image in
            let y = exact_ys image in
            let z = exact_zs image in
            (
              λ m. elim (Bool-cases (contains xs image)) [
                | inl in_x ↦ inl (x.0 in_x)
                | inr not_x ↦ elim (Bool-cases (contains ys image)) [
                  | inl in_y ↦ inr (inl (y.0 in_y))
                  | inr not_y ↦ inr (inr (z.0 (ground arith)))
                ]
              ],
              λ h. elim h [
                | inl in_x ↦ let m = x.1 in_x in ground arith
                | inr (inl in_y) ↦ let m = y.1 in_y in ground arith
                | inr (inr in_z) ↦ let m = z.1 in_z in ground arith
              ],
            ),
      )
