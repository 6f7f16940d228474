-- ===== src/TrustedRepos/Validation/Reasons.antt =====
-- What a rejection reports.
use policies.Prelude.{
  ◌≡◌, ◌↔◌, ◌⊎◌, inl, inr, refl, String, false, Option, none, some, List, [], ◌∷◌, arith, Any, here,
  there, ◌∈◌, unwrap_or, eq_iff,
}
use policies.Prelude.Sets.Laws.{contains-insert}
use policies.TrustedRepos.Matchers.{Oci, Wild, image_ref_from_str}
use policies.TrustedRepos.Settings.{Settings}
use policies.TrustedRepos.Validation.{
  PodRejectionReasons, no_reasons, not_allowed, is_allowed_registry, is_allowed_tag,
  is_allowed_image, check_registry, check_tag, check_image_ref, check_image, check_images,
  validate_images,
}

module _ {R W : Type 0} (oci : Oci R) (wild : Wild W) (s : Settings R W) where
  -- What is wrong with an image that reads as the reference `r`, and puts `x` among the reasons.
  abbrev pub WrongRegistry : String → String → R → Type 0
  WrongRegistry x image r =
      (oci.registry r ≡ x) × (is_allowed_registry oci wild s (oci.registry r) ≡ false)

  abbrev pub WrongTag : String → String → R → Type 0
  WrongTag x image r =
      (unwrap_or "latest" (oci.tag r) ≡ x)
      × (is_allowed_tag oci wild s (unwrap_or "latest" (oci.tag r)) ≡ false)

  abbrev pub WrongImage : String → String → R → Type 0
  WrongImage x image r = (image ≡ x) × (is_allowed_image oci wild s r ≡ false)

  -- The image reads as a reference that has something wrong.
  abbrev pub Blames : (String → R → Type 0) → String → Type 0
  Blames Wrong image = (r : R) × (image_ref_from_str oci image ≡ some r) × Wrong image r

  module _ (x : String) (reasons : PodRejectionReasons) (image : String) (r : R) where
    registry_iff :
        (x ∈ (check_image oci wild s image (some r) reasons).registries_not_allowed)
        ↔ ((x ∈ reasons.registries_not_allowed) ⊎ WrongRegistry x image r)
    unfolding check_image check_image_ref check_tag check_registry
    registry_iff = ground (
      arith,
      contains-insert (oci.registry r) reasons.registries_not_allowed x,
      eq_iff x (oci.registry r),
    )

    tag_iff :
        (x ∈ (check_image oci wild s image (some r) reasons).tags_not_allowed)
        ↔ ((x ∈ reasons.tags_not_allowed) ⊎ WrongTag x image r)
    unfolding check_image check_image_ref check_tag check_registry
    tag_iff = ground (
      arith,
      contains-insert (unwrap_or "latest" (oci.tag r)) reasons.tags_not_allowed x,
      eq_iff x (unwrap_or "latest" (oci.tag r)),
    )

    image_iff :
        (x ∈ (check_image oci wild s image (some r) reasons).images_not_allowed)
        ↔ ((x ∈ reasons.images_not_allowed) ⊎ WrongImage x image r)
    unfolding check_image check_image_ref check_tag check_registry
    image_iff = ground (arith, contains-insert image reasons.images_not_allowed x, eq_iff x image)

  -- The loop adds to a list of reasons what the images add one by one.
  module _ (list : PodRejectionReasons → List String) (x : String) (Adds : String → Type 0)
      (step : (image : String) (reasons : PodRejectionReasons)
        → (x ∈ list (check_image oci wild s image (image_ref_from_str oci image) reasons))
          ↔ ((x ∈ list reasons) ⊎ Adds image)) where
    loop_sound :
        (images : List String) (reasons : PodRejectionReasons)
        → x ∈ list (check_images oci wild s images reasons)
        → (x ∈ list reasons) ⊎ Any Adds images
    unfolding check_images
    loop_sound [] reasons m = inl m
    loop_sound (image ∷ images) reasons m =
        let after = check_image oci wild s image (image_ref_from_str oci image) reasons in
        elim (loop_sound images after m) [
          | inr later ↦ inr (there later)
          | inl early ↦ elim ((step image reasons).0 early) [
            | inl before ↦ inl before
            | inr blamed ↦ inr (here blamed)
          ]
        ]

    loop_complete :
        (images : List String) (reasons : PodRejectionReasons)
        → (x ∈ list reasons) ⊎ Any Adds images
        → x ∈ list (check_images oci wild s images reasons)
    unfolding check_images
    loop_complete [] reasons (inl m) = m
    loop_complete [] reasons (inr none_) = elim none_ [ ]
    loop_complete (image ∷ images) reasons (inl m) =
        loop_complete images (check_image oci wild s image (image_ref_from_str oci image) reasons)
          (inl ((step image reasons).1 (inl m)))
    loop_complete (image ∷ images) reasons (inr (here blamed)) =
        loop_complete images (check_image oci wild s image (image_ref_from_str oci image) reasons)
          (inl ((step image reasons).1 (inr blamed)))
    loop_complete (image ∷ images) reasons (inr (there later)) =
        loop_complete images (check_image oci wild s image (image_ref_from_str oci image) reasons)
          (inr later)

  -- The step of the loop, from what it does for a reference. `Wrong r` is what is wrong with it.
  module _ (list : PodRejectionReasons → List String) (x : String) (Wrong : String → R → Type 0)
      (step : (reasons : PodRejectionReasons) (image : String) (r : R)
        → (x ∈ list (check_image oci wild s image (some r) reasons))
          ↔ ((x ∈ list reasons) ⊎ Wrong image r)) where
    by_option :
        (image : String) (o : Option R) (reasons : PodRejectionReasons)
        → (x ∈ list (check_image oci wild s image o reasons))
          ↔ ((x ∈ list reasons) ⊎ ((r : R) × (o ≡ some r) × Wrong image r))
    unfolding check_image
    by_option image none reasons = (λ m. inl m, λ h. elim h [ inl m ↦ m | inr (r, e, _) ↦ cc e ])
    by_option image (some r) reasons = (
      λ m. elim ((step reasons image r).0 m) [
        | inl before ↦ inl before
        | inr wrong ↦ inr (r, refl, wrong)
      ],
      λ h. elim h [
        | inl before ↦ (step reasons image r).1 (inl before)
        | inr (r', e, wrong) ↦
            let same : r ≡ r' = cc e in (step reasons image r).1 (inr (rw same wrong))
      ],
    )

    all_reasons_iff :
        (images : List String)
        → (list no_reasons ≡ [])
        → (x ∈ list (check_images oci wild s images no_reasons)) ↔ Any (Blames Wrong) images
    all_reasons_iff images none_before =
        let step' : (image : String) (reasons : PodRejectionReasons)
            → (x ∈ list (check_image oci wild s image (image_ref_from_str oci image) reasons))
              ↔ ((x ∈ list reasons) ⊎ Blames Wrong image) =
          λ image reasons. by_option image (image_ref_from_str oci image) reasons in
        (
          λ m. elim (loop_sound list x (Blames Wrong) step' images no_reasons m) [
            | inl before ↦ cc (before, none_before)
            | inr blamed ↦ blamed
          ],
          λ blamed. loop_complete list x (Blames Wrong) step' images no_reasons (inr blamed),
        )

  module _ (images : List String) (reasons : PodRejectionReasons)
      (rejected : validate_images oci wild s images ≡ not_allowed reasons) where
    loop_result : reasons ≡ check_images oci wild s images no_reasons
    unfolding validate_images
    loop_result = ground arith

    -- A rejection reports the registries, tags and images of exactly those images that read as a
    -- reference and of which the registry, the tag ("latest" if it has none) or the whole is not
    -- allowed.
    pub validate_images-Blames_iff :
        (x : String)
        → ((x ∈ reasons.registries_not_allowed) ↔ Any (Blames (WrongRegistry x)) images)
          × ((x ∈ reasons.tags_not_allowed) ↔ Any (Blames (WrongTag x)) images)
          × ((x ∈ reasons.images_not_allowed) ↔ Any (Blames (WrongImage x)) images)
    validate_images-Blames_iff x = rw loop_result (
      all_reasons_iff (λ r. r.registries_not_allowed) x (WrongRegistry x) (registry_iff x) images
          refl,
      all_reasons_iff (λ r. r.tags_not_allowed) x (WrongTag x) (tag_iff x) images refl,
      all_reasons_iff (λ r. r.images_not_allowed) x (WrongImage x) (image_iff x) images refl,
    )
