-- ===== src/UserGroup/Context.antt =====
-- The trait GenericSecurityContext of policies/user-group-psp-policy/src/lib.rs, with its two
-- implementations and the laws of getters and setters that the rules rely on.
use policies.Prelude.{◌≡◌, refl, Option, none, ℤ, Bool}
use policies.K8s.{
  SecurityContext, PodSecurityContext, default_security_context, default_pod_security_context,
}

pub record GenericSecurityContext (T : Type 0) : Type 0 where
  pub run_as_user : T → Option ℤ
  pub set_run_as_user : Option ℤ → T → T
  pub run_as_non_root : T → Option Bool
  pub set_run_as_non_root : Option Bool → T → T
  pub run_as_group : T → Option ℤ
  pub set_run_as_group : Option ℤ → T → T
  pub default : T
  pub user-set_user : (v : Option ℤ) (t : T) → run_as_user (set_run_as_user v t) ≡ v
  pub group-set_group : (v : Option ℤ) (t : T) → run_as_group (set_run_as_group v t) ≡ v
  pub root-set_root : (v : Option Bool) (t : T) → run_as_non_root (set_run_as_non_root v t) ≡ v
  pub user-set_group : (v : Option ℤ) (t : T) → run_as_user (set_run_as_group v t) ≡ run_as_user t
  pub user-set_root :
      (v : Option Bool) (t : T) → run_as_user (set_run_as_non_root v t) ≡ run_as_user t
  pub root-set_group :
      (v : Option ℤ) (t : T) → run_as_non_root (set_run_as_group v t) ≡ run_as_non_root t
  pub user-default : run_as_user default ≡ none
  pub group-default : run_as_group default ≡ none

module _ {X : Type 0} (unset : X) where
  abbrev pub container_context : GenericSecurityContext (SecurityContext X)
  container_context = record {
    run_as_user = λ c. c.run_as_user;
    set_run_as_user = λ v c. record c { run_as_user = v };
    run_as_non_root = λ c. c.run_as_non_root;
    set_run_as_non_root = λ v c. record c { run_as_non_root = v };
    run_as_group = λ c. c.run_as_group;
    set_run_as_group = λ v c. record c { run_as_group = v };
    default = default_security_context unset;
    user-set_user = λ v c. refl;
    group-set_group = λ v c. refl;
    root-set_root = λ v c. refl;
    user-set_group = λ v c. refl;
    user-set_root = λ v c. refl;
    root-set_group = λ v c. refl;
    user-default = refl;
    group-default = refl;
  }

  abbrev pub pod_context : GenericSecurityContext (PodSecurityContext X)
  pod_context = record {
    run_as_user = λ c. c.run_as_user;
    set_run_as_user = λ v c. record c { run_as_user = v };
    run_as_non_root = λ c. c.run_as_non_root;
    set_run_as_non_root = λ v c. record c { run_as_non_root = v };
    run_as_group = λ c. c.run_as_group;
    set_run_as_group = λ v c. record c { run_as_group = v };
    default = default_pod_security_context unset;
    user-set_user = λ v c. refl;
    group-set_group = λ v c. refl;
    root-set_root = λ v c. refl;
    user-set_group = λ v c. refl;
    user-set_root = λ v c. refl;
    root-set_group = λ v c. refl;
    user-default = refl;
    group-default = refl;
  }
