-- ===== src/Egress/Consistency.antt =====
-- The mounts of a lease of crates/nanovm/src/egress.rs: their tags and their paths in the guest.
use nanoeval.Prelude.{
  Bool, Bool-cases, List, Result-cases, String, [], any, ap, arith, false, inl, inr, ok, some,
  str_eq, subst, sym, true, ◌∙◌, ◌∷◌, ◌≡◌, Result, err, refl,
}
use nanoeval.Prelude.Paths.{path_eq_iff, path_eq}
use nanoeval.Prelude.Dict.{insert, lookup, values, Dict}
use nanoeval.Egress.Extending.{insert-source}
use nanoeval.Egress.Inserting.{
  insert_all-HasEnvironment, insert_environment-eq-ok, insert_mount-eq-ok, mount_eq_iff,
}
use nanoeval.Egress.{
  EgressLease, insert_environment, EgressMount, Network, insert_mount, merge, mount_all, new_lease,
  retain, takes_path, EgressError, assign, insert_all, merge_into, network_eq,
}

-- Every mount is listed under its tag, and mounts with one path in the guest are the same.
pub record IsConsistent (mounts : Dict EgressMount) : Type 0 where
  pub tagged : (tag : String) (x : EgressMount) → lookup tag mounts ≡ some x → x.tag ≡ tag
  pub one_path :
      (tag other : String) (x y : EgressMount)
      → lookup tag mounts ≡ some x
      → lookup other mounts ≡ some y
      → x.guest_path ≡ y.guest_path
      → x ≡ y

lookup-any :
    {V : Type 0} (p : V → Bool) (d : Dict V) (name : String) (x : V)
    → any p (values d) ≡ false
    → lookup name d ≡ some x
    → p x ≡ false
unfolding lookup
lookup-any p [] name x free h = absurd (cc)
lookup-any p ((first, v) ∷ later) name x free h =
    let rest : any p (values later) ≡ false = ground arith in
    elim (Bool-cases (str_eq first name)) [
      | inl equal ↦ ground arith
      | inr other ↦ lookup-any p later name x rest (ground arith)
    ]

takes_path-false :
    (mount x : EgressMount)
    → takes_path mount x ≡ false
    → x.guest_path ≡ mount.guest_path
    → x ≡ mount
unfolding takes_path
takes_path-false mount x h e =
    let same_path : path_eq x.guest_path mount.guest_path ≡ true =
      (path_eq_iff x.guest_path mount.guest_path).1 e in
    (mount_eq_iff x mount).0 (ground arith)

insert-IsConsistent :
    (d : Dict EgressMount) (mount : EgressMount)
    → any (takes_path mount) (values d) ≡ false
    → IsConsistent d
    → IsConsistent (insert mount.tag mount d)
insert-IsConsistent d mount free h =
    let untaken : (tag : String) (x : EgressMount)
        → lookup tag d ≡ some x
        → x.guest_path ≡ mount.guest_path
        → x ≡ mount =
      λ tag x found e.
        takes_path-false mount x (lookup-any (takes_path mount) d tag x free found) e in
    record {
      tagged = λ tag x e. elim (insert-source d mount.tag mount tag x e) [
        | inl old ↦ h.tagged tag x old
        | inr (same_tag, same_mount) ↦ ap (λ m. m.tag) same_mount ∙ sym same_tag
      ];
      one_path = λ tag other x y e f same_path. elim (insert-source d mount.tag mount tag x e) [
        | inl old ↦ elim (insert-source d mount.tag mount other y f) [
          | inl old' ↦ h.one_path tag other x y old old' same_path
          | inr (same_tag, same_mount) ↦
              untaken tag x old (same_path ∙ ap (λ m. m.guest_path) same_mount) ∙ sym same_mount
        ]
        | inr (same_tag, same_mount) ↦ elim (insert-source d mount.tag mount other y f) [
          | inl old' ↦
              same_mount
              ∙ sym (untaken other y old' (sym same_path ∙ ap (λ m. m.guest_path) same_mount))
          | inr (same_tag', same_mount') ↦ same_mount ∙ sym same_mount'
        ]
      ];
    }

module _ {G : Type 0} where
  insert_mount-IsConsistent :
      (mount : EgressMount) (lease next : EgressLease G)
      → insert_mount mount lease ≡ ok next
      → IsConsistent lease.guest_mounts
      → IsConsistent next.guest_mounts
  insert_mount-IsConsistent mount lease next h consistent =
      let (free, unused, found) = insert_mount-eq-ok mount lease next h in
      subst IsConsistent (ap (λ l. l.guest_mounts) found)
        (insert-IsConsistent lease.guest_mounts mount free consistent)

  mount_all-IsConsistent :
      (added : List EgressMount) (lease larger : EgressLease G)
      → mount_all added lease ≡ ok larger
      → IsConsistent lease.guest_mounts
      → IsConsistent larger.guest_mounts
  unfolding mount_all
  mount_all-IsConsistent [] lease larger h consistent =
      let same_lease : lease ≡ larger = ground arith in
      subst (λ l. IsConsistent l.guest_mounts) same_lease consistent
  mount_all-IsConsistent (mount ∷ later) lease larger h consistent =
      elim (Result-cases (insert_mount mount lease)) [
        | inr (error, failed) ↦ absurd (ground arith)
        | inl (next, inserted) ↦
            mount_all-IsConsistent later next larger (rw inserted at h)
              (insert_mount-IsConsistent mount lease next inserted consistent)
      ]

  -- The leases that the operations make.
  pub data Made : EgressLease G → Type 0 where
    fresh : (network : Network) → Made (new_lease network)
    with_environment :
        (name value : String) {before next : EgressLease G}
        → Made before
        → insert_environment name value before ≡ ok next
        → Made next
    with_mount :
        (mount : EgressMount) {before next : EgressLease G}
        → Made before
        → insert_mount mount before ≡ ok next
        → Made next
    retained : (guard : G) {before : EgressLease G} → Made before → Made (retain guard before)
    merged : {self other : EgressLease G} → Made self → Made other → Made ((merge self other).0)

  assign-IsConsistent :
      (self other : EgressLease G) (result : Result (EgressLease G) EgressError)
      → IsConsistent self.guest_mounts
      → merge_into self other ≡ result
      → IsConsistent (assign self result).0.guest_mounts
  unfolding assign merge_into
  assign-IsConsistent self other (err error) consistent h = consistent
  assign-IsConsistent self other (ok whole) consistent h =
      elim (Result-cases (insert_all other.guest_environment self)) [
        | inr (error, failed) ↦ absurd (ground arith)
        | inl (first, filled) ↦ elim (Result-cases (mount_all (values other.guest_mounts) first)) [
          | inr (error, failed) ↦ absurd (ground arith)
          | inl (second, mounted) ↦
              let e = insert_all-HasEnvironment other.guest_environment self first filled in
              let same_mounts : second.guest_mounts ≡ whole.guest_mounts = ground arith in
              subst IsConsistent same_mounts (
                mount_all-IsConsistent (values other.guest_mounts) first second mounted
                  (subst IsConsistent (sym e.same_mounts) consistent))
        ]
      ]

  merge-IsConsistent :
      (self other : EgressLease G)
      → IsConsistent self.guest_mounts
      → IsConsistent (merge self other).0.guest_mounts
  unfolding merge
  merge-IsConsistent self other consistent =
      elim (Bool-cases (network_eq self.network other.network)) [
        | inl agreed ↦
            rw agreed (assign-IsConsistent self other (merge_into self other) consistent refl)
        | inr apart ↦ rw apart consistent
      ]

  -- In every lease that the operations make, each mount is listed under its tag, and two mounts
  -- with one path in the guest are the same mount.
  pub Made-IsConsistent : (lease : EgressLease G) → Made lease → IsConsistent lease.guest_mounts
  unfolding new_lease retain lookup
  Made-IsConsistent lease (Made.fresh network) = record {
    tagged = λ tag x e. absurd (cc);
    one_path = λ tag other x y e f same_path. absurd (cc);
  }
  Made-IsConsistent lease (Made.with_environment name value {before} {next} made h) =
      let (free, found) = insert_environment-eq-ok name value before next h in
      subst IsConsistent (ap (λ l. l.guest_mounts) found) (Made-IsConsistent before made)
  Made-IsConsistent lease (Made.with_mount mount {before} {next} made h) =
      insert_mount-IsConsistent mount before next h (Made-IsConsistent before made)
  Made-IsConsistent lease (Made.retained guard {before} made) = Made-IsConsistent before made
  Made-IsConsistent lease (Made.merged {self} {other} made made') =
      merge-IsConsistent self other (Made-IsConsistent self made)
