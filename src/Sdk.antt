-- ===== src/Sdk.antt =====
-- What a policy answers through the SDK (accept_request, reject_request, mutate_request and
-- mutate_pod_spec_from_request of kubewarden_policy_sdk), and what it is given: the request, with
-- the SDK's reading of its object as an argument. The JSON around both is the SDK's.
use policies.Prelude.{Bool, true, false}

-- `A` is the mutated object, `E` the reason of a rejection before it is printed.
pub data Response {ℓ κ} (E : Type ℓ) (A : Type κ) : Type (ℓ ⊔ κ) where
  accept : Response E A
  reject : E → Response E A
  mutate : A → Response E A

module _ {ℓ κ} {E : Type ℓ} {A : Type κ} where
  abbrev pub is_reject : Response E A → Bool
  is_reject accept = false
  is_reject (reject e) = true
  is_reject (mutate a) = false

-- What `extract_pod_spec_from_object` gives: the pod specification inside of the request's object,
-- none if objects of that kind hold none, or an error if the object does not parse.
pub data Extracted {ℓ} (P : Type ℓ) : Type ℓ where
  pod_spec : P → Extracted P
  no_pod_spec : Extracted P
  unreadable : Extracted P
