-- ===== src/TrustedRepos/Matchers.antt =====
-- policies/trusted-repos-policy/src/matchers.rs and src/matchers. The crates oci-spec and wildmatch
-- are parameters.
pub mod Normal
pub mod Images
use policies.Prelude.{
  String, Bool, true, false, ◌||◌, ◌&&◌, not, Option, none, some, List, [], ◌∷◌, to_lowercase,
  contains_char, ◌==◌, if◌then◌else◌, any, ◌≡◌, ◌+++◌,
}

-- `oci_spec::distribution::Reference`.
pub record Oci (R : Type 0) : Type 0 where
  pub from_str : String → Option R
  pub whole : R → String
  pub registry : R → String
  pub repository : R → String
  pub tag : R → Option String
  pub digest : R → Option String
  pub with_tag_and_digest : String → String → String → String → R
  pub with_tag : String → String → String → R
  pub with_digest : String → String → String → R
  pub eq : Discrete R

-- `wildmatch::WildMatch`.
pub record Wild (W : Type 0) : Type 0 where
  pub new : String → W
  pub matches : W → String → Bool

unfoldable pub is_glob_pattern : String → Bool
is_glob_pattern s = contains_char b'*' s || contains_char b'?' s

-- Also the type of the matchers of registries and tags, which wrap it.
pub data StringMatcher (W : Type 0) : Type 0 where
  exact : String → StringMatcher W
  pattern_ : W → String → StringMatcher W

module _ {W : Type 0} where
  abbrev pub raw : StringMatcher W → String
  raw (exact s) = s
  raw (pattern_ w s) = s

  unfoldable pub matches : Wild W → StringMatcher W → String → Bool
  matches wild (exact e) s = e == s
  matches wild (pattern_ w r) s = wild.matches w s

  -- `deserialize`.
  unfoldable pub string_matcher : Wild W → String → StringMatcher W
  string_matcher wild s = if is_glob_pattern s then pattern_ (wild.new s) s else exact s

module _ {R : Type 0} (oci : Oci R) where
  rebuilt : R → String → Option String → Option String → R
  rebuilt r registry (some tag) (some digest) =
      oci.with_tag_and_digest registry (oci.repository r) tag digest
  rebuilt r registry (some tag) none = oci.with_tag registry (oci.repository r) tag
  rebuilt r registry none (some digest) = oci.with_digest registry (oci.repository r) digest
  rebuilt r registry none none = oci.with_tag registry (oci.repository r) "latest"

  -- An `ImageRef` is a reference whose registry is in lower case.
  unfoldable pub from_reference : R → R
  unfolding rebuilt
  from_reference r =
      if oci.registry r == to_lowercase (oci.registry r)
      then r
      else rebuilt r (to_lowercase (oci.registry r)) (oci.tag r) (oci.digest r)

  image_ref_of : Option R → Option R
  image_ref_of none = none
  image_ref_of (some r) = some (from_reference r)

  unfoldable pub image_ref_from_str : String → Option R
  unfolding image_ref_of
  image_ref_from_str s = image_ref_of (oci.from_str s)

  decided : {a b : R} → Dec (a ≡ b) → Bool
  decided (yes same) = true
  decided (no other) = false

  -- `==` of references.
  unfoldable pub same_ref : R → R → Bool
  unfolding decided
  same_ref a b = decided (oci.eq a b)

  equals : R → Option R → Bool
  equals e none = false
  equals e (some r) = same_ref r e

  exact_matches : R → R → Bool
  unfolding equals
  exact_matches image_ref e =
      same_ref e image_ref
      || (equals e (image_ref_from_str (oci.repository image_ref))
          || equals e
              (image_ref_from_str (oci.registry image_ref +++ ("/" +++ oci.repository image_ref))))

pub data ImageMatcher (R W : Type 0) : Type 0 where
  exact : R → ImageMatcher R W
  pattern_ : StringMatcher W → ImageMatcher R W

module _ {R W : Type 0} (oci : Oci R) (wild : Wild W) where
  exact_matcher : Option R → Option (ImageMatcher R W)
  exact_matcher none = none
  exact_matcher (some r) = some (ImageMatcher.exact r)

  -- `deserialize`.
  unfoldable pub image_matcher : String → Option (ImageMatcher R W)
  unfolding exact_matcher
  image_matcher s =
      if is_glob_pattern s
      then some (ImageMatcher.pattern_ (StringMatcher.pattern_ (wild.new s) s))
      else exact_matcher (image_ref_from_str oci s)

  pattern_matches : R → StringMatcher W → Bool
  pattern_matches image_ref sm =
      matches wild sm (oci.whole image_ref)
      || (not (contains_char b':' (raw sm) || contains_char b'@' (raw sm))
          && (matches wild sm (oci.registry image_ref +++ ("/" +++ oci.repository image_ref))
              || matches wild sm (oci.repository image_ref)))

  pub image_matches : R → ImageMatcher R W → Bool
  image_matches image_ref (ImageMatcher.exact e) = exact_matches oci image_ref e
  image_matches image_ref (ImageMatcher.pattern_ sm) = pattern_matches image_ref sm

  unfoldable pub image_matches_any : R → List (ImageMatcher R W) → Bool
  unfolding image_matches exact_matches pattern_matches
  image_matches_any image_ref matchers = any (image_matches image_ref) matchers
