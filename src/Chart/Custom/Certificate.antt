-- ===== src/Chart/Custom/Certificate.antt =====
-- Certificates of cert-manager. The structs as the generated Go declares
-- them, each with its zero value and with the test that its required fields are set, in every
-- struct below it too.
use learning_crossplane_e2e.Prelude.{Bool, List, Option, String, none, ◌&&◌}
use learning_crossplane_e2e.Chart.K8s.Base.{ApiObjectMetadata, Float64, NeverBuilt, each, is_set}

pub record CertificateSpecIssuerRef : Type 0 where
  pub name : Option String
  pub group : Option String
  pub kind : Option String

abbrev pub zero_certificate_spec_issuer_ref : CertificateSpecIssuerRef
zero_certificate_spec_issuer_ref = record { name = none; group = none; kind = none }

abbrev pub certificate_spec_issuer_ref_complete : CertificateSpecIssuerRef → Bool
certificate_spec_issuer_ref_complete x = is_set x.name

pub record CertificateSpec : Type 0 where
  pub issuer_ref : Option CertificateSpecIssuerRef
  pub secret_name : Option String
  pub additional_output_formats : Option NeverBuilt
  pub common_name : Option String
  pub dns_names : Option (List String)
  pub duration : Option String
  pub email_addresses : Option (List String)
  pub encode_usages_in_request : Option Bool
  pub ip_addresses : Option (List String)
  pub is_ca : Option Bool
  pub keystores : Option NeverBuilt
  pub literal_subject : Option String
  pub private_key : Option NeverBuilt
  pub renew_before : Option String
  pub revision_history_limit : Option Float64
  pub secret_template : Option NeverBuilt
  pub subject : Option NeverBuilt
  pub uris : Option (List String)
  pub usages : Option NeverBuilt

abbrev pub zero_certificate_spec : CertificateSpec
zero_certificate_spec = record {
  issuer_ref = none;
  secret_name = none;
  additional_output_formats = none;
  common_name = none;
  dns_names = none;
  duration = none;
  email_addresses = none;
  encode_usages_in_request = none;
  ip_addresses = none;
  is_ca = none;
  keystores = none;
  literal_subject = none;
  private_key = none;
  renew_before = none;
  revision_history_limit = none;
  secret_template = none;
  subject = none;
  uris = none;
  usages = none;
}

abbrev pub certificate_spec_complete : CertificateSpec → Bool
certificate_spec_complete x =
    is_set x.issuer_ref
    && each certificate_spec_issuer_ref_complete x.issuer_ref
    && is_set x.secret_name

pub record CertificateProps : Type 0 where
  pub spec : Option CertificateSpec
  pub metadata : Option ApiObjectMetadata

abbrev pub zero_certificate_props : CertificateProps
zero_certificate_props = record { spec = none; metadata = none }

abbrev pub certificate_props_complete : CertificateProps → Bool
certificate_props_complete x = is_set x.spec && each certificate_spec_complete x.spec
