-- ===== src/Signatures/Verify/Loops.antt =====
-- What the loops over signatures and containers leave behind.
use policies.Prelude.{
  ◌≡◌, ◌↔◌, ◌⊎◌, inl, inr, refl, String, true, Option, some, List, [], ◌∷◌, ++-eq-nil_iff, ok, All,
  Each, done, more, contains_text, join, arith, ⊎-cases, ap, sym, subst, Bool-cases, if◌then◌else◌,
}
use policies.K8s.{Container}
use policies.TrustedRepos.Matchers.{Wild}
use policies.Signatures.Settings.{
  Signature, pub_keys, keyless, github_actions, keyless_prefix, certificate, Certificate, image,
}
use policies.Signatures.Verify.{
  VerificationResponse, Verifier, Failure, add_digest_if_not_present, handle_verification_response,
  verify_certificates, verification_response, is_for, verify_signatures, verify_containers,
}

abbrev pub HasImage : {X : Type 0} → Container X → Type 0
HasImage c = (name : String) × (c.image ≡ some name)

-- The host gives no error.
abbrev pub Succeeds : String ⊎ VerificationResponse → Type 0
Succeeds (inl e) = ⊥
Succeeds (inr r) = Unit

module _ {K KP W : Type 0} (wild : Wild W) (host : Verifier K KP) where
  -- The image passes the verification that the signature asks for: with certificates, there is
  -- one, and all pass.
  abbrev pub Verifies : Signature K KP → String → Type 0
  Verifies (pub_keys s) name = Succeeds (host.verify_pub_keys_image name s.pub_keys s.annotations)
  Verifies (keyless s) name =
      Succeeds (host.verify_keyless_exact_match name s.keyless s.annotations)
  Verifies (keyless_prefix s) name =
      Succeeds (host.verify_keyless_prefix_match name s.keyless_prefix s.annotations)
  Verifies (github_actions s) name = Succeeds (
      host.verify_keyless_github_actions name s.github_actions.owner s.github_actions.repo
        s.annotations)
  Verifies (certificate s) name =
      (¬ (s.certificates ≡ []))
      × All
          (λ c. Succeeds (
            host.verify_certificate name c s.certificate_chain s.require_rekor_bundle
              s.annotations))
          s.certificates

  -- Each signature whose pattern matches the image passes.
  abbrev pub IsSignedImage : List (Signature K KP) → String → Type 0
  IsSignedImage signatures name =
      All (λ s. wild.matches (wild.new (image s)) name ≡ true → Verifies s name) signatures

  verify_certificates_iff :
      (s : Certificate) (name : String) (cs : List String) (first : String ⊎ VerificationResponse)
      → Succeeds (verify_certificates wild host s name cs first) ↔ (
          All
            (λ c. Succeeds (
              host.verify_certificate name c s.certificate_chain s.require_rekor_bundle
                s.annotations))
            cs
          × (cs ≡ [] → Succeeds first))
  unfolding verify_certificates
  verify_certificates_iff s name [] first = (λ h. (tt, λ same. h), λ (hs, h). h refl)
  verify_certificates_iff s name (c ∷ cs) first =
      let one =
        host.verify_certificate name c s.certificate_chain s.require_rekor_bundle s.annotations in
      elim (⊎-cases one) [
        | inl (e, failed) ↦ rw (failed, Succeeds) (λ h. absurd h, λ h. absurd h.0.0)
        | inr (r, passed) ↦
            let rest = verify_certificates_iff s name cs (inr r) in
            rw (passed, Succeeds)
              (λ h. ((tt, (rest.0 h).0), λ same. absurd (cc same)), λ h. rest.1 (h.0.1, λ same. tt))
      ]

  verification_response_iff :
      (s : Signature K KP) (name : String)
      → Succeeds (verification_response wild host s name) ↔ Verifies s name
  unfolding verification_response
  verification_response_iff (pub_keys s) name = (λ h. h, λ h. h)
  verification_response_iff (keyless s) name = (λ h. h, λ h. h)
  verification_response_iff (keyless_prefix s) name = (λ h. h, λ h. h)
  verification_response_iff (github_actions s) name = (λ h. h, λ h. h)
  verification_response_iff (certificate s) name =
      let all_certificates = verify_certificates_iff s name s.certificates (inl "Cannot verify") in
      (
        λ h. let (hs, some_) = all_certificates.0 h in (some_, hs),
        λ (some_, hs). all_certificates.1 (hs, some_),
      )

  module _ {X : Type 0} where
    -- A container with its image as it was, or with a digest that the host gave for it.
    abbrev pub IsPinned : Container X → Container X → Type 0
    IsPinned c c' =
        (c' ≡ c)
        ⊎ ((name : String) × (s : Signature K KP) × (r : VerificationResponse) × (c.image
              ≡ some name)
            × (verification_response wild host s name ≡ inr r)
            × (c' ≡ record c { image = some (join "@" (name ∷ r.digest ∷ [])) }))

    abbrev with_image : Option String → Container X → Container X
    with_image name c = record c { image = name }

    same_rest :
        (c c' : Container X) (name : Option String)
        → IsPinned c c'
        → record c' { image = name } ≡ record c { image = name }
    same_rest c c' name (inl same) = ap (with_image name) same
    same_rest c c' name (inr (was, s, r, named, passed, same)) = ap (with_image name) same

    add_digest_if_not_present-IsPinned :
        (c c' : Container X) (name : String) (s : Signature K KP) (r : VerificationResponse)
        → c.image ≡ some name
        → verification_response wild host s name ≡ inr r
        → IsPinned c c'
        → IsPinned c (add_digest_if_not_present name r.digest c')
    unfolding add_digest_if_not_present
    add_digest_if_not_present-IsPinned c c' name s r named passed pinned =
        elim (Bool-cases (contains_text name r.digest)) [
          | inl present ↦ rw present pinned
          | inr absent ↦ rw absent (inr (name, s, r, named, passed, same_rest c c' _ pinned))
        ]

    -- One signature of the loop.
    abbrev step : String → Signature K KP → Container X × List Failure → Container X × List Failure
    step name s state =
        if wild.matches (wild.new (image s)) name
        then handle_verification_response (verification_response wild host s name) name state
        else state

    step-IsPinned :
        (name : String) (c : Container X) (s : Signature K KP) (c' : Container X)
        (errors : List Failure)
        → c.image ≡ some name
        → IsPinned c c'
        → IsPinned c (step name s (c', errors)).0
    unfolding handle_verification_response
    step-IsPinned name c s c' errors named pinned =
        elim (Bool-cases (wild.matches (wild.new (image s)) name)) [
          | inr other ↦ rw other pinned
          | inl for_it ↦ elim (⊎-cases (verification_response wild host s name)) [
            | inl (e, failed) ↦ rw (for_it, failed) pinned
            | inr (r, passed) ↦
                rw (for_it, passed)
                  (add_digest_if_not_present-IsPinned c c' name s r named passed pinned)
          ]
        ]

    step-errors_iff :
        (name : String) (s : Signature K KP) (c : Container X) (errors : List Failure)
        → ((step name s (c, errors)).1 ≡ [])
          ↔ ((errors ≡ []) × (wild.matches (wild.new (image s)) name ≡ true → Verifies s name))
    unfolding handle_verification_response
    step-errors_iff name s c errors =
        let verifies = verification_response_iff s name in
        elim (Bool-cases (wild.matches (wild.new (image s)) name)) [
          | inr other ↦ rw other (λ h. (h, λ for_it. absurd (cc for_it)), λ h. h.0)
          | inl for_it ↦ elim (⊎-cases (verification_response wild host s name)) [
            | inl (e, failed) ↦
                let none_ : ¬ Verifies s name = λ v. subst Succeeds failed (verifies.1 v) in
                rw (for_it, failed)
                  (
                    λ h. absurd (cc ((++-eq-nil_iff errors ((name, e) ∷ [])).0 h).1),
                    λ h. absurd (none_ (h.1 refl)),
                  )
            | inr (r, passed) ↦
                let verified : Verifies s name = verifies.0 (subst Succeeds (sym passed) tt) in
                rw (for_it, passed) (λ h. (h, λ same. verified), λ h. h.0)
          ]
        ]

    verify_signatures-IsPinned :
        (name : String) (c : Container X) (ss : List (Signature K KP))
        (state : Container X × List Failure)
        → c.image ≡ some name
        → IsPinned c state.0
        → IsPinned c (verify_signatures wild host name ss state).0
    unfolding verify_signatures is_for
    verify_signatures-IsPinned name c [] state named pinned = pinned
    verify_signatures-IsPinned name c (s ∷ ss) state named pinned =
        verify_signatures-IsPinned name c ss (step name s state) named
          (step-IsPinned name c s state.0 state.1 named pinned)

    verify_signatures-errors_iff :
        (name : String) (ss : List (Signature K KP)) (state : Container X × List Failure)
        → ((verify_signatures wild host name ss state).1 ≡ [])
          ↔ ((state.1 ≡ []) × IsSignedImage ss name)
    unfolding verify_signatures is_for
    verify_signatures-errors_iff name [] state = (λ h. (h, tt), λ h. h.0)
    verify_signatures-errors_iff name (s ∷ ss) state =
        let rest = verify_signatures-errors_iff name ss (step name s state) in
        let first = step-errors_iff name s state.0 state.1 in
        (
          λ h. let (a, b) = rest.0 h in let (c, d) = first.0 a in (c, (d, b)),
          λ (c, (d, b)). rest.1 (first.1 (c, d), b),
        )

    -- What a container asks of its image, if it has one.
    abbrev pub IsSigned : List (Signature K KP) → Container X → Type 0
    IsSigned signatures c = (name : String) → c.image ≡ some name → IsSignedImage signatures name

    pub verify_containers-IsPinned :
        (signatures : List (Signature K KP)) (cs : List (Container X)) (errors : List Failure)
        → All HasImage cs
        → (cs' : List (Container X)) × (later : List Failure) × (verify_containers wild host
              signatures cs errors
            ≡ ok (cs', later))
          × Each IsPinned cs cs'
          × ((later ≡ []) ↔ ((errors ≡ []) × All (IsSigned signatures) cs))
    unfolding verify_containers
    verify_containers-IsPinned signatures [] errors named =
        ([], errors, refl, done, (λ h. (h, tt), λ h. h.0))
    verify_containers-IsPinned signatures (c ∷ cs) errors ((name, has), named) =
        let state = verify_signatures wild host name signatures (c, errors) in
        let (cs', later, rest, pinned, free) =
          verify_containers-IsPinned signatures cs state.1 named in
        let one = verify_signatures-errors_iff name signatures (c, errors) in
        let asked : (other : String) → c.image ≡ some other → name ≡ other = λ other same. cc in
        (
          state.0 ∷ cs',
          later,
          ground (arith, has, rest),
          more (verify_signatures-IsPinned name c signatures (c, errors) has (inl refl)) pinned,
          (
            λ h.
                let (a, b) = free.0 h in
                let (first, signed) = one.0 a in
                (
                  first,
                  (λ other same. subst (IsSignedImage signatures) (asked other same) signed, b),
                ),
            λ (first, (signed, b)). free.1 (one.1 (first, signed name has), b),
          ),
        )
