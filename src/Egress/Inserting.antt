-- ===== src/Egress/Inserting.antt =====
-- What the insertions of `merge` in crates/nanovm/src/egress.rs do to a lease.
use nanoeval.Prelude.{
  Bool-cases, Option-cases, Result-cases, String, [], ap, arith, eq_iff, eq_refl, inl, inr, ok,
  refl, some, str_eq, subst, true, ◌↔◌, ◌∙◌, ◌∷◌, ◌≡◌, List, any, false, map, sym,
}
use nanoeval.Prelude.Paths.{path_eq_iff}
use nanoeval.Prelude.Dict.{insert, lookup, Dict, values}
use nanoeval.Egress.Extending.{IsExtended, IsFree, IsExtended-cons, IsExtended-nil}
use nanoeval.Egress.{
  EgressLease, insert_environment, EgressMount, insert_all, mount_eq, valid_environment_name,
  insert_mount, mount_all, takes_path,
}

pub mount_eq_iff : (a b : EgressMount) → (mount_eq a b ≡ true) ↔ (a ≡ b)
unfolding mount_eq
mount_eq_iff a b = (
  λ h.
      let same_tag : a.tag ≡ b.tag = (eq_iff a.tag b.tag).0 (ground arith) in
      let same_host : a.host_path ≡ b.host_path =
        (path_eq_iff a.host_path b.host_path).0 (ground arith) in
      let same_guest : a.guest_path ≡ b.guest_path =
        (path_eq_iff a.guest_path b.guest_path).0 (ground arith) in
      λ i. record { tag = same_tag i; host_path = same_host i; guest_path = same_guest i },
  λ e.
      subst (λ c. mount_eq a c ≡ true) e
        (rw (eq_refl a.tag) (
          rw ((path_eq_iff a.host_path a.host_path).1 refl)
            ((path_eq_iff a.guest_path a.guest_path).1 refl))),
)

module _ {G : Type 0} where
  -- The leases differ in the environment at most.
  pub record HasEnvironment (lease : EgressLease G) (added : Dict String) (larger : EgressLease G)
      : Type 0 where
    pub environment : IsExtended lease.guest_environment added larger.guest_environment
    pub same_network : larger.network ≡ lease.network
    pub same_mounts : larger.guest_mounts ≡ lease.guest_mounts
    pub same_guards : larger.guards ≡ lease.guards

  pub insert_environment-eq-ok :
      (name value : String) (lease next : EgressLease G)
      → insert_environment name value lease ≡ ok next
      → IsFree name value lease.guest_environment
        × (record lease { guest_environment = insert name value lease.guest_environment } ≡ next)
  unfolding insert_environment
  insert_environment-eq-ok name value lease next h =
      elim (Bool-cases (valid_environment_name name)) [
        | inr bad ↦ absurd (ground arith)
        | inl valid ↦ elim (Option-cases (lookup name lease.guest_environment)) [
          | inl missing ↦ (inl missing, ground arith)
          | inr (current, present) ↦ elim (Bool-cases (str_eq current value)) [
            | inr other ↦ absurd (ground arith)
            | inl equal ↦
                let same_value : current ≡ value = (eq_iff current value).0 equal in
                (inr (present ∙ ap some same_value), ground arith)
          ]
        ]
      ]

  pub insert_all-HasEnvironment :
      (added : Dict String) (lease larger : EgressLease G)
      → insert_all added lease ≡ ok larger
      → HasEnvironment lease added larger
  unfolding insert_all
  insert_all-HasEnvironment [] lease larger h =
      let same_lease : lease ≡ larger = ground arith in
      subst (HasEnvironment lease []) same_lease (record {
        environment = IsExtended-nil lease.guest_environment;
        same_network = refl;
        same_mounts = refl;
        same_guards = refl;
      })
  insert_all-HasEnvironment ((name, value) ∷ later) lease larger h =
      elim (Result-cases (insert_environment name value lease)) [
        | inr (error, failed) ↦ absurd (ground arith)
        | inl (next, inserted) ↦
            let (free, found) = insert_environment-eq-ok name value lease next inserted in
            let rest = insert_all-HasEnvironment later next larger (rw inserted at h) in
            let grown : next.guest_environment ≡ insert name value lease.guest_environment =
              sym (ap (λ l. l.guest_environment) found) in
            record {
              environment =
                  IsExtended-cons lease.guest_environment name value later larger.guest_environment
                    free
                    (subst (λ d. IsExtended d later larger.guest_environment) grown
                      rest.environment);
              same_network = rest.same_network ∙ sym (ap (λ l. l.network) found);
              same_mounts = rest.same_mounts ∙ sym (ap (λ l. l.guest_mounts) found);
              same_guards = rest.same_guards ∙ sym (ap (λ l. l.guards) found);
            }
      ]

  pub record HasMounts (lease : EgressLease G) (added : List EgressMount) (larger : EgressLease G)
      : Type 0 where
    pub mounts :
        IsExtended lease.guest_mounts (map (λ mount. (mount.tag, mount)) added) larger.guest_mounts
    pub same_network : larger.network ≡ lease.network
    pub same_environment : larger.guest_environment ≡ lease.guest_environment
    pub same_guards : larger.guards ≡ lease.guards

  pub insert_mount-eq-ok :
      (mount : EgressMount) (lease next : EgressLease G)
      → insert_mount mount lease ≡ ok next
      → (any (takes_path mount) (values lease.guest_mounts) ≡ false)
        × IsFree mount.tag mount lease.guest_mounts
        × (record lease { guest_mounts = insert mount.tag mount lease.guest_mounts } ≡ next)
  unfolding insert_mount
  insert_mount-eq-ok mount lease next h = elim (Bool-cases (str_eq mount.tag "")) [
    | inl bad ↦ absurd (ground arith)
    | inr tagged ↦ elim (Bool-cases (any (takes_path mount) (values lease.guest_mounts))) [
      | inl taken ↦ absurd (ground arith)
      | inr open_path ↦ elim (Option-cases (lookup mount.tag lease.guest_mounts)) [
        | inl missing ↦ (open_path, inl missing, ground arith)
        | inr (current, present) ↦ elim (Bool-cases (mount_eq current mount)) [
          | inr other ↦ absurd (ground arith)
          | inl equal ↦
              let same_mount : current ≡ mount = (mount_eq_iff current mount).0 equal in
              (open_path, inr (present ∙ ap some same_mount), ground arith)
        ]
      ]
    ]
  ]

  pub mount_all-HasMounts :
      (added : List EgressMount) (lease larger : EgressLease G)
      → mount_all added lease ≡ ok larger
      → HasMounts lease added larger
  unfolding mount_all
  mount_all-HasMounts [] lease larger h =
      let same_lease : lease ≡ larger = ground arith in
      subst (HasMounts lease []) same_lease (record {
        mounts = IsExtended-nil lease.guest_mounts;
        same_network = refl;
        same_environment = refl;
        same_guards = refl;
      })
  mount_all-HasMounts (mount ∷ later) lease larger h =
      elim (Result-cases (insert_mount mount lease)) [
        | inr (error, failed) ↦ absurd (ground arith)
        | inl (next, inserted) ↦
            let (open_path, free, found) = insert_mount-eq-ok mount lease next inserted in
            let rest = mount_all-HasMounts later next larger (rw inserted at h) in
            let grown : next.guest_mounts ≡ insert mount.tag mount lease.guest_mounts =
              sym (ap (λ l. l.guest_mounts) found) in
            let tagged = map (λ (m : EgressMount). (m.tag, m)) later in
            record {
              mounts =
                  IsExtended-cons lease.guest_mounts mount.tag mount tagged larger.guest_mounts free
                    (subst (λ d. IsExtended d tagged larger.guest_mounts) grown rest.mounts);
              same_network = rest.same_network ∙ sym (ap (λ l. l.network) found);
              same_environment = rest.same_environment ∙ sym (ap (λ l. l.guest_environment) found);
              same_guards = rest.same_guards ∙ sym (ap (λ l. l.guards) found);
            }
      ]
