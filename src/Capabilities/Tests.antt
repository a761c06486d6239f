-- ===== src/Capabilities/Tests.antt =====
-- A host with network and block devices, and one that fails.
use nanoeval.Prelude.{[], err, false, if◌then◌else◌, ltb, ok, refl, ◌∷◌, ◌≡◌}
use nanoeval.Capabilities.{Host, detect, Capabilities, block, negsuc, network, pos}
use nanoeval.Capabilities.Detection.{IsDetected, detect-IsDetected}

abbrev host : Host
host = record {
  get_max_vcpus = pos 8;
  check_nested_virt = pos 0;
  has_feature = λ feature. if ltb feature 2 then pos 1 else pos 0;
  is_macos = false;
}

abbrev found : Capabilities
found = record {
  max_vcpus = 8;
  nested_virtualization = false;
  pause_resume = false;
  features = network ∷ block ∷ [];
}

detect_runs : detect host ≡ ok found
unfolding detect
detect_runs = refl

detect_fails :
    detect (record host { check_nested_virt = negsuc 21 })
    ≡ err (record { operation = "query nested virtualization"; errno = pos 22 })
unfolding detect
detect_fails = refl

detect-IsDetected_example : IsDetected host found
detect-IsDetected_example = detect-IsDetected host found detect_runs
