-- ===== src/Chart/Providers.antt =====
-- Whether the parts of db.go that read the provider flags agree with one another.
use text.Mathlib.TextEquality.{eq_iff}
use learning_crossplane_e2e.Prelude.{
  String, Bool, true, false, ◌&&◌, ◌||◌, not, some, ◌≡◌, ◌≢◌, ◌↔◌, arith,
}
use learning_crossplane_e2e.Chart.Props.{AppProps}
use learning_crossplane_e2e.Chart.DbResources.{claim_provider, claim_version, store_name}

-- A provider outside the cluster.
abbrev pub any_cloud : AppProps → Bool
any_cloud app =
    app.db.enabled.crossplane.google || app.db.enabled.crossplane.aws
    || app.db.enabled.crossplane.azure

-- The claim and the secret store test AWS and Azure in opposite orders.
abbrev pub in_opposite_order : AppProps → Bool
in_opposite_order app =
    app.db.enabled.crossplane.aws
    && (app.db.enabled.crossplane.azure && not app.db.enabled.crossplane.google)

distinct_names : (◌≢◌ {A = String} "aws" "azure") × (◌≢◌ {A = String} "azure" "aws")
distinct_names = (ground (arith, eq_iff "aws" "azure"), ground (arith, eq_iff "azure" "aws"))

-- The password comes from the store of the provider that the claim names exactly where a cloud
-- provider is enabled and it is not the case that AWS and Azure are enabled without Google.
pub store_name-claim_provider :
    (app : AppProps)
    → (store_name app ≡ some (claim_provider app))
      ↔ ((any_cloud app ≡ true) × (in_opposite_order app ≡ false))
unfolding store_name claim_provider
store_name-claim_provider app = ground (arith, distinct_names.0, distinct_names.1)

distinct_versions : ◌≢◌ {A = String} "11" "16.5"
distinct_versions = ground (arith, eq_iff "11" "16.5")

distinct_from_aws : (◌≢◌ {A = String} "google" "aws") × (◌≢◌ {A = String} "local-k8s" "aws")
distinct_from_aws =
    (ground (arith, eq_iff "google" "aws"), ground (arith, eq_iff "local-k8s" "aws"))

-- The claim asks for the version that AWS offers exactly where it names AWS as its provider, if
-- Google and AWS are not enabled together.
pub claim_version-claim_provider :
    (app : AppProps)
    → (app.db.enabled.crossplane.google && app.db.enabled.crossplane.aws) ≡ false
    → (claim_version app ≡ "16.5") ↔ (claim_provider app ≡ "aws")
unfolding claim_version claim_provider
claim_version-claim_provider app h =
    ground (arith, distinct_versions, distinct_from_aws.0, distinct_from_aws.1, distinct_names.1)
