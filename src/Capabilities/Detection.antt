-- ===== src/Capabilities/Detection.antt =====
-- What `detect` of crates/nanovm/src/capabilities.rs reports.
use mathlib.Core.List.{append_assoc, append-nil}
use nanoeval.Capabilities.{
  ℤ, KrunFeature, bool_status, feature_code, negsuc, pos, query_features, Capabilities, Host,
  all_features, detect, positive,
}
use nanoeval.Prelude.{
  ℕ, All, Bool, List, Result-cases, String, [], arith, false, filter, if◌then◌else◌, inl, inr, ok,
  ◌++◌, ◌<◌, ◌==◌, ◌∷◌, ◌≡◌, ap, refl, subst, true, ◌∙◌,
}

abbrev pub is_one : ℤ → Bool
is_one (pos n) = n == 1
is_one (negsuc n) = false

abbrev pub IsStatus : ℤ → Type 0
IsStatus (pos n) = n < 2
IsStatus (negsuc n) = ⊥

bool_status-eq-ok :
    (status : ℤ) (operation : String) (b : Bool)
    → bool_status status operation ≡ ok b
    → IsStatus status × (b ≡ is_one status)
unfolding bool_status
bool_status-eq-ok (pos n) operation b h = (ground arith, ground arith)
bool_status-eq-ok (negsuc n) operation b h = absurd (cc)

choose_append :
    {A : Type 0} (b : Bool) (x : A) (xs ys : List A)
    → (if b then xs ++ x ∷ [] else xs) ++ ys ≡ xs ++ (if b then x ∷ ys else ys)
choose_append true x xs ys = simp append_assoc
choose_append false x xs ys = refl

query_features-eq-ok :
    (has_feature : ℕ → ℤ) (features asked found : List KrunFeature)
    → query_features has_feature features asked ≡ ok found
    → (found ≡ features ++ filter (λ f. is_one (has_feature (feature_code f))) asked)
      × All (λ f. IsStatus (has_feature (feature_code f))) asked
unfolding query_features
query_features-eq-ok has_feature features [] found h = (rw append-nil (ground arith), tt)
query_features-eq-ok has_feature features (feature ∷ later) found h =
    elim (Result-cases
      (bool_status (has_feature (feature_code feature)) "query compiled feature")) [
        | inr (error, bad) ↦ absurd (ground arith)
        | inl (present, known) ↦
            let (status, value) =
              bool_status-eq-ok (has_feature (feature_code feature)) "query compiled feature"
                present known in
            let rest =
              query_features-eq-ok has_feature
                (if present then features ++ feature ∷ [] else features) later found
                (rw known at h) in
            let others = filter (λ f. is_one (has_feature (feature_code f))) later in
            (
              rest.0
                  ∙ ap (λ (b : Bool). (if b then features ++ feature ∷ [] else features) ++ others)
                      value
                  ∙ choose_append (is_one (has_feature (feature_code feature))) feature features
                      others,
              (status, rest.1),
            )
      ]

positive-eq-ok :
    (status : ℤ) (operation : String) (n : ℕ) → positive status operation ≡ ok n → status ≡ pos n
unfolding positive
positive-eq-ok (pos m) operation n h = ground arith
positive-eq-ok (negsuc m) operation n h = absurd (cc)

abbrev reported : Host → ℕ → Bool → List KrunFeature → Capabilities
reported host vcpus nested found = record {
  max_vcpus = vcpus;
  nested_virtualization = nested;
  pause_resume = host.is_macos;
  features = found;
}

-- What `detect` reports when it succeeds.
pub record IsDetected (host : Host) (c : Capabilities) : Type 0 where
  pub vcpus : host.get_max_vcpus ≡ pos c.max_vcpus
  pub nested : c.nested_virtualization ≡ is_one host.check_nested_virt
  pub nested_status : IsStatus host.check_nested_virt
  pub features : c.features ≡ filter (λ f. is_one (host.has_feature (feature_code f))) all_features
  pub statuses : All (λ f. IsStatus (host.has_feature (feature_code f))) all_features

-- When `detect` succeeds, libkrun has answered with a count of processors that is not negative and
-- with 0 or 1 to every question; the report has this count, and it has nested virtualization and
-- the features exactly where the answer was 1, the features in their own order.
pub detect-IsDetected : (host : Host) (c : Capabilities) → detect host ≡ ok c → IsDetected host c
unfolding detect
detect-IsDetected host c h =
    elim (Result-cases (positive host.get_max_vcpus "query maximum vCPUs")) [
      | inr (error, bad) ↦ absurd (ground arith)
      | inl (vcpus, counted) ↦
          elim (Result-cases (bool_status host.check_nested_virt "query nested virtualization")) [
            | inr (error, bad) ↦ absurd (ground arith)
            | inl (nested, answered) ↦
                elim (Result-cases (query_features host.has_feature [] all_features)) [
                  | inr (error, bad) ↦ absurd (ground arith)
                  | inl (found, asked) ↦
                      let (status, value) =
                        bool_status-eq-ok host.check_nested_virt "query nested virtualization"
                          nested answered in
                      let listed =
                        query_features-eq-ok host.has_feature [] all_features found asked in
                      let same : reported host vcpus nested found ≡ c = ground arith in
                      subst (IsDetected host) same (record {
                        vcpus =
                            positive-eq-ok host.get_max_vcpus "query maximum vCPUs" vcpus counted;
                        nested = value;
                        nested_status = status;
                        features = listed.0;
                        statuses = listed.1;
                      })
                ]
          ]
    ]
