-- ===== src/Capabilities.antt =====
-- crates/nanovm/src/capabilities.rs: what the host and the linked libkrun can do. The calls of
-- libkrun are parameters, as the statuses that they return.
pub mod Detection
mod Tests
use nanoeval.Prelude.{
  ℕ, Bool, List, Result, String, [], err, false, if◌then◌else◌, min, ok, suc, true, zero, ◌++◌, ◌+◌,
  ◌-◌, ◌==◌, ◌>>=◌, ◌^◌, ◌∷◌,
}

-- An `i32`: `pos n` is n, `negsuc n` is -(n + 1).
pub data ℤ : Type 0 where
  pos negsuc : ℕ → ℤ

-- `i32::saturating_neg`
unfoldable pub saturating_neg : ℤ → ℤ
saturating_neg (pos zero) = pos zero
saturating_neg (pos (suc n)) = negsuc n
saturating_neg (negsuc n) = pos (min (n + 1) (2 ^ 31 - 1))

pub data KrunFeature : Type 0 where
  network block gpu input tee amd_sev intel_tdx aws_nitro virgl_resource_map2 init_blob :
      KrunFeature

-- `feature as u64`
abbrev pub feature_code : KrunFeature → ℕ
feature_code network = 0
feature_code block = 1
feature_code gpu = 2
feature_code input = 4
feature_code tee = 6
feature_code amd_sev = 7
feature_code intel_tdx = 8
feature_code aws_nitro = 9
feature_code virgl_resource_map2 = 10
feature_code init_blob = 11

-- `FEATURES`
abbrev pub all_features : List KrunFeature
all_features =
    network ∷ block ∷ gpu ∷ input ∷ tee ∷ amd_sev ∷ intel_tdx ∷ aws_nitro ∷ virgl_resource_map2
    ∷ init_blob ∷ []

-- `VmError::Libkrun`
pub record Libkrun : Type 0 where
  pub operation : String
  pub errno : ℤ

pub record Capabilities : Type 0 where
  pub max_vcpus : ℕ
  pub nested_virtualization : Bool
  pub pause_resume : Bool
  pub features : List KrunFeature

unfoldable pub positive : ℤ → String → Result ℕ Libkrun
unfolding saturating_neg
positive (pos n) operation = ok n
positive (negsuc n) operation =
    err (record { operation = operation; errno = saturating_neg (negsuc n) })

unfoldable pub bool_status : ℤ → String → Result Bool Libkrun
unfolding saturating_neg
bool_status (pos n) operation =
    if n == 0
    then ok false
    else if n == 1
    then ok true
    else err (record { operation = operation; errno = saturating_neg (pos n) })
bool_status (negsuc n) operation =
    err (record { operation = operation; errno = saturating_neg (negsuc n) })

-- What libkrun answers, and whether the target is macOS.
pub record Host : Type 0 where
  pub get_max_vcpus : ℤ
  pub check_nested_virt : ℤ
  pub has_feature : ℕ → ℤ
  pub is_macos : Bool

-- The loop of `detect`; the set in the order in which it grows, which is its own order.
unfoldable pub query_features :
    (ℕ → ℤ) → List KrunFeature → List KrunFeature → Result (List KrunFeature) Libkrun
unfolding bool_status
query_features has_feature features [] = ok features
query_features has_feature features (feature ∷ later) = do
  present ← bool_status (has_feature (feature_code feature)) "query compiled feature"
  query_features has_feature (if present then features ++ feature ∷ [] else features) later

unfoldable pub detect : Host → Result Capabilities Libkrun
unfolding positive bool_status query_features
detect host = do
  max_vcpus ← positive host.get_max_vcpus "query maximum vCPUs"
  nested_virtualization ← bool_status host.check_nested_virt "query nested virtualization"
  features ← query_features host.has_feature [] all_features
  ok (record {
    max_vcpus = max_vcpus;
    nested_virtualization = nested_virtualization;
    pause_resume = host.is_macos;
    features = features;
  })
