-- ===== src/Egress/Merging.antt =====
-- `merge` of crates/nanovm/src/egress.rs: two fragments together, or an error and no change.
use nanoeval.Egress.Inserting.{insert_all-HasEnvironment, mount_all-HasMounts}
use nanoeval.Prelude.{
  Bool-cases, Result-cases, ap, arith, inl, inr, ok, refl, subst, true, ◌∙◌, ◌≡◌, err, map, sym,
  ◌++◌, Bool, Result, if◌then◌else◌, not,
}
use nanoeval.Prelude.Dict.{values}
use nanoeval.Egress.Extending.{IsExtended}
use nanoeval.Egress.{
  EgressLease, insert_all, EgressError, merge, merge_into, mount_all, network_eq, assign,
  network_conflict,
}

module _ {G : Type 0} where
  -- What a lease is after a merge that succeeds.
  pub record IsMerged (self other merged : EgressLease G) : Type 0 where
    pub same_network : merged.network ≡ self.network
    pub agreed : network_eq self.network other.network ≡ true
    pub environment :
        IsExtended self.guest_environment other.guest_environment merged.guest_environment
    pub mounts :
        IsExtended self.guest_mounts
          (map (λ mount. (mount.tag, mount)) (values other.guest_mounts))
          merged.guest_mounts
    pub guards : merged.guards ≡ self.guards ++ other.guards

  merge_into-IsMerged :
      (self other merged : EgressLease G)
      → network_eq self.network other.network ≡ true
      → merge_into self other ≡ ok merged
      → IsMerged self other merged
  unfolding merge_into
  merge_into-IsMerged self other merged agreed h =
      elim (Result-cases (insert_all other.guest_environment self)) [
        | inr (error, failed) ↦ absurd (ground arith)
        | inl (first, with_environment) ↦
            elim (Result-cases (mount_all (values other.guest_mounts) first)) [
              | inr (error, failed) ↦ absurd (ground arith)
              | inl (second, with_mounts) ↦
                  let e =
                    insert_all-HasEnvironment other.guest_environment self first with_environment in
                  let m =
                    mount_all-HasMounts (values other.guest_mounts) first second with_mounts in
                  let same_lease : record second { guards = second.guards ++ other.guards }
                      ≡ merged =
                    ground arith in
                  subst (IsMerged self other) same_lease (record {
                    same_network = m.same_network ∙ e.same_network;
                    agreed = agreed;
                    environment =
                        subst (IsExtended self.guest_environment other.guest_environment)
                          (sym m.same_environment) e.environment;
                    mounts =
                        subst
                          (λ d.
                            IsExtended d
                              (map (λ mount. (mount.tag, mount)) (values other.guest_mounts))
                              second.guest_mounts)
                          e.same_mounts m.mounts;
                    guards = ap (λ g. g ++ other.guards) (m.same_guards ∙ e.same_guards);
                  })
            ]
      ]

  abbrev Outcome :
      EgressLease G → EgressLease G → EgressLease G × Result (Unit {0}) EgressError → Type 0
  Outcome self other after =
      (after.1 ≡ ok tt → IsMerged self other (after.0))
      × ((error : EgressError) → after.1 ≡ err error → after.0 ≡ self)

  assign-Outcome :
      (self other : EgressLease G) (result : Result (EgressLease G) EgressError)
      → network_eq self.network other.network ≡ true
      → merge_into self other ≡ result
      → Outcome self other (assign self result)
  unfolding assign
  assign-Outcome self other (err failure) agreed h = (λ e. absurd (cc), λ error e. refl)
  assign-Outcome self other (ok merged) agreed h =
      (λ e. merge_into-IsMerged self other merged agreed h, λ error e. absurd (cc))

  -- When `merge` succeeds, both leases have the same network, every value and every mount of
  -- either lease is in the result unchanged, and the result has no others; so fragments that
  -- assign different values to one name or tag never merge. When it fails, the lease is unchanged.
  pub merge_lem :
      (self other : EgressLease G)
      → ((merge self other).1 ≡ ok tt → IsMerged self other (merge self other).0)
        × ((error : EgressError) → (merge self other).1 ≡ err error → (merge self other).0 ≡ self)
  unfolding merge
  merge_lem self other = elim (Bool-cases (network_eq self.network other.network)) [
    | inl agreed ↦
        subst
          (λ (b : Bool).
            Outcome self other
              (if not b then (self, err network_conflict) else assign self (merge_into self other)))
          (sym agreed) (assign-Outcome self other (merge_into self other) agreed refl)
    | inr apart ↦
        subst
          (λ (b : Bool).
            Outcome self other
              (if not b then (self, err network_conflict) else assign self (merge_into self other)))
          (sym apart) (λ e. absurd (cc), λ error e. refl)
  ]
