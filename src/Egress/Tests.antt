-- ===== src/Egress/Tests.antt =====
-- The fragments of the program's own test, merged and in conflict.
use nanoeval.Prelude.Order.{lex}
use nanoeval.Prelude.Paths.{path_eq}
use nanoeval.Prelude.{ℕ, [], err, ok, refl, ◌∷◌, ◌≡◌}
use nanoeval.Prelude.Dict.{insert, lookup}
use nanoeval.Egress.{
  EgressLease, insert_environment, EgressError, EgressMount, environment_conflict,
  guest_mount_conflict, insert_mount, internet, merge, mount_eq, network_eq, new_lease, takes_path,
  valid_environment_name,
}
use nanoeval.Egress.Merging.{merge_lem, IsMerged}
use nanoeval.Egress.Consistency.{IsConsistent, Made, Made-IsConsistent}

abbrev certificates : EgressMount
certificates = record {
  tag = "secret-ca";
  host_path = "host" ∷ "ca" ∷ [];
  guest_path = "run" ∷ "egress" ∷ "ca" ∷ [];
}

abbrev elsewhere : EgressMount
elsewhere = record certificates { tag = "other-ca" }

abbrev secrets : EgressLease ℕ
secrets = record {
  network = internet;
  guest_environment = ("OPENAI_BASE_URL", "https://gateway/v1/openai") ∷ [];
  guest_mounts = ("secret-ca", certificates) ∷ [];
  guards = 1 ∷ [];
}

abbrev payments : EgressLease ℕ
payments = record {
  network = internet;
  guest_environment = ("MPP_ENDPOINT", "https://gateway/v1/mpp") ∷ [];
  guest_mounts = [];
  guards = 2 ∷ [];
}

abbrev both : EgressLease ℕ
both = record secrets {
  guest_environment =
      ("MPP_ENDPOINT", "https://gateway/v1/mpp")
      ∷ ("OPENAI_BASE_URL", "https://gateway/v1/openai")
      ∷ [];
  guards = 1 ∷ 2 ∷ [];
}

merge_runs : merge secrets payments ≡ (both, ok tt)
unfolding merge insert_environment insert lookup valid_environment_name network_eq lex
merge_runs = refl

conflict_runs :
    insert_environment "OPENAI_BASE_URL" "http://mpp" secrets
    ≡ err (environment_conflict "OPENAI_BASE_URL")
unfolding insert_environment lookup valid_environment_name
conflict_runs = refl

mount_runs : insert_mount elsewhere secrets ≡ err (guest_mount_conflict elsewhere.guest_path)
unfolding insert_mount takes_path path_eq mount_eq
mount_runs = refl

merge_lem_example :
    ((merge secrets payments).1 ≡ ok tt → IsMerged secrets payments (merge secrets payments).0)
    × ((error : EgressError)
        → (merge secrets payments).1 ≡ err error
        → (merge secrets payments).0 ≡ secrets)
merge_lem_example = merge_lem secrets payments

abbrev with_variable : EgressLease ℕ
with_variable = record {
  network = internet;
  guest_environment = ("OPENAI_BASE_URL", "https://gateway/v1/openai") ∷ [];
  guest_mounts = [];
  guards = [];
}

variable_inserted :
    insert_environment "OPENAI_BASE_URL" "https://gateway/v1/openai" (new_lease internet)
    ≡ ok with_variable
unfolding new_lease insert_environment lookup insert valid_environment_name
variable_inserted = refl

abbrev with_both : EgressLease ℕ
with_both = record with_variable { guest_mounts = ("secret-ca", certificates) ∷ [] }

mount_inserted : insert_mount certificates with_variable ≡ ok with_both
unfolding insert_mount lookup insert takes_path
mount_inserted = refl

Made-IsConsistent_example : IsConsistent with_both.guest_mounts
Made-IsConsistent_example = Made-IsConsistent with_both (
    Made.with_mount certificates
      (Made.with_environment "OPENAI_BASE_URL" "https://gateway/v1/openai" (Made.fresh internet)
        variable_inserted)
      mount_inserted)
