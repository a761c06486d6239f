-- ===== src/Egress.antt =====
-- crates/nanovm/src/egress.rs: the outbound access of a guest, put together from fragments. An
-- insertion that fails leaves the lease as it was, so its error carries no state. `G` is what a
-- provider retains.
pub mod Extending
pub mod Inserting
pub mod Merging
pub mod Consistency
mod Tests
use nanoeval.Errors.{is_some_and}
use nanoeval.Prelude.{
  ℕ, Bool, List, Result, String, [], any, code, err, false, if◌then◌else◌, leb, not, ok, str_eq,
  true, ◌&&◌, ◌++◌, ◌==◌, ◌>>=◌, ◌||◌, ◌∷◌,
}
use nanoeval.Prelude.Dict.{insert, lookup, values, Dict}
use nanoeval.Prelude.Paths.{FilePath, path_eq}
use nanoeval.Sweep.Identity.{is_ascii_alphanumeric}

pub data Network : Type 0 where
  disabled internet : Network
  gvproxy : FilePath → List ℕ → Network

bytes_eq : List ℕ → List ℕ → Bool
bytes_eq [] [] = true
bytes_eq (a ∷ as') (b ∷ bs) = a == b && bytes_eq as' bs
bytes_eq _ _ = false

-- the derived `PartialEq`
unfoldable pub network_eq : Network → Network → Bool
unfolding bytes_eq
network_eq disabled disabled = true
network_eq internet internet = true
network_eq (gvproxy socket mac) (gvproxy other_socket other_mac) =
    path_eq socket other_socket && bytes_eq mac other_mac
network_eq _ _ = false

pub record EgressMount : Type 0 where
  pub tag : String
  pub host_path : FilePath
  pub guest_path : FilePath

-- the derived `PartialEq`
unfoldable pub mount_eq : EgressMount → EgressMount → Bool
mount_eq a b =
    str_eq a.tag b.tag && (path_eq a.host_path b.host_path && path_eq a.guest_path b.guest_path)

pub record EgressLease (G : Type 0) : Type 0 where
  pub network : Network
  pub guest_environment : Dict String
  pub guest_mounts : Dict EgressMount
  pub guards : List G

pub data EgressError : Type 0 where
  network_conflict empty_mount_tag : EgressError
  invalid_environment_name environment_conflict mount_tag_conflict : String → EgressError
  guest_mount_conflict : FilePath → EgressError

-- `is_ascii_alphabetic`, on the code point
is_ascii_alphabetic : ℕ → Bool
is_ascii_alphabetic c = leb b'A' c && leb c b'Z' || leb b'a' c && leb c b'z'

all_identifier : String → Bool
unfolding is_ascii_alphanumeric
all_identifier String.[] = true
all_identifier (String.◌∷◌ c s) =
    (code c == b'_' || is_ascii_alphanumeric (code c)) && all_identifier s

-- Every byte of a character that is not ASCII fails the test, as its code point does here.
unfoldable pub valid_environment_name : String → Bool
unfolding is_ascii_alphabetic all_identifier
valid_environment_name String.[] = false
valid_environment_name (String.◌∷◌ c s) =
    (code c == b'_' || is_ascii_alphabetic (code c)) && all_identifier s

-- `guest_path` is that of a different mount
unfoldable pub takes_path : EgressMount → EgressMount → Bool
takes_path mount current =
    path_eq current.guest_path mount.guest_path && not (mount_eq current mount)

module _ {G : Type 0} where
  -- `EgressLease::new`
  unfoldable pub new_lease : Network → EgressLease G
  new_lease network = record {
    network = network;
    guest_environment = [];
    guest_mounts = [];
    guards = [];
  }

  unfoldable pub insert_environment :
      String → String → EgressLease G → Result (EgressLease G) EgressError
  insert_environment name value lease =
      if not (valid_environment_name name)
      then err (invalid_environment_name name)
      else if is_some_and (lookup name lease.guest_environment)
          (λ current. not (str_eq current value))
      then err (environment_conflict name)
      else ok (record lease { guest_environment = insert name value lease.guest_environment })

  unfoldable pub insert_mount : EgressMount → EgressLease G → Result (EgressLease G) EgressError
  unfolding takes_path
  insert_mount mount lease =
      if str_eq mount.tag ""
      then err empty_mount_tag
      else if any (takes_path mount) (values lease.guest_mounts)
      then err (guest_mount_conflict mount.guest_path)
      else if is_some_and (lookup mount.tag lease.guest_mounts)
          (λ current. not (mount_eq current mount))
      then err (mount_tag_conflict mount.tag)
      else ok (record lease { guest_mounts = insert mount.tag mount lease.guest_mounts })

  unfoldable pub retain : G → EgressLease G → EgressLease G
  retain guard lease = record lease { guards = lease.guards ++ guard ∷ [] }

  pub insert_all : Dict String → EgressLease G → Result (EgressLease G) EgressError
  insert_all [] merged = ok merged
  insert_all ((name, value) ∷ later) merged = do
    next ← insert_environment name value merged
    insert_all later next

  pub mount_all : List EgressMount → EgressLease G → Result (EgressLease G) EgressError
  mount_all [] merged = ok merged
  mount_all (mount ∷ later) merged = do next ← insert_mount mount merged; mount_all later next

  -- the body of `merge` on the copy `merged`
  pub merge_into : EgressLease G → EgressLease G → Result (EgressLease G) EgressError
  unfolding insert_all mount_all
  merge_into merged other = do
    with_environment ← insert_all other.guest_environment merged
    with_mounts ← mount_all (values other.guest_mounts) with_environment
    ok (record with_mounts { guards = with_mounts.guards ++ other.guards })

  assign :
      EgressLease G
      → Result (EgressLease G) EgressError
      → EgressLease G × Result (Unit {0}) EgressError
  assign self (err error) = (self, err error)
  assign self (ok merged) = (merged, ok tt)

  -- The lease after the call, and the result.
  unfoldable pub merge :
      EgressLease G → EgressLease G → EgressLease G × Result (Unit {0}) EgressError
  unfolding merge_into assign
  merge self other =
      if not (network_eq self.network other.network)
      then (self, err network_conflict)
      else assign self (merge_into self other)
