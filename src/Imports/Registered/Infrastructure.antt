-- ===== src/Imports/Registered/Infrastructure.antt =====
-- The init functions of cdk8s/imports/certmanagerio/certmanagerio.go,
-- devopstoolkitseriescom/devopstoolkitseriescom.go and externalsecretsio/main.go.
use learning_crossplane_e2e.Prelude.{List, [], ◌∷◌}
use learning_crossplane_e2e.Imports.Registry.{
  Registration, api_object_members, register_class, register_enum, register_struct,
}

abbrev pub cert_manager_init_1 : List Registration
cert_manager_init_1 =
    register_class "cert-managerio.Certificate" "Certificate" api_object_members
      "jsiiProxy_Certificate"
    ∷ register_struct "cert-managerio.CertificateProps" "CertificateProps"
    ∷ register_struct "cert-managerio.CertificateSpec" "CertificateSpec"
    ∷ register_struct "cert-managerio.CertificateSpecAdditionalOutputFormats"
        "CertificateSpecAdditionalOutputFormats"
    ∷ register_enum "cert-managerio.CertificateSpecAdditionalOutputFormatsType"
        "CertificateSpecAdditionalOutputFormatsType"
        (("DER", "CertificateSpecAdditionalOutputFormatsType_DER")
          ∷ ("COMBINED_PEM", "CertificateSpecAdditionalOutputFormatsType_COMBINED_PEM")
          ∷ [])
    ∷ register_struct "cert-managerio.CertificateSpecIssuerRef" "CertificateSpecIssuerRef"
    ∷ register_struct "cert-managerio.CertificateSpecKeystores" "CertificateSpecKeystores"
    ∷ register_struct "cert-managerio.CertificateSpecKeystoresJks" "CertificateSpecKeystoresJks"
    ∷ register_struct "cert-managerio.CertificateSpecKeystoresJksPasswordSecretRef"
        "CertificateSpecKeystoresJksPasswordSecretRef"
    ∷ register_struct "cert-managerio.CertificateSpecKeystoresPkcs12"
        "CertificateSpecKeystoresPkcs12"
    ∷ register_struct "cert-managerio.CertificateSpecKeystoresPkcs12PasswordSecretRef"
        "CertificateSpecKeystoresPkcs12PasswordSecretRef"
    ∷ register_struct "cert-managerio.CertificateSpecPrivateKey" "CertificateSpecPrivateKey"
    ∷ register_enum "cert-managerio.CertificateSpecPrivateKeyAlgorithm"
        "CertificateSpecPrivateKeyAlgorithm"
        (("RSA", "CertificateSpecPrivateKeyAlgorithm_RSA")
          ∷ ("ECDSA", "CertificateSpecPrivateKeyAlgorithm_ECDSA")
          ∷ ("ED25519", "CertificateSpecPrivateKeyAlgorithm_ED25519")
          ∷ [])
    ∷ register_enum "cert-managerio.CertificateSpecPrivateKeyEncoding"
        "CertificateSpecPrivateKeyEncoding"
        (("PKCS1", "CertificateSpecPrivateKeyEncoding_PKCS1")
          ∷ ("PKCS8", "CertificateSpecPrivateKeyEncoding_PKCS8")
          ∷ [])
    ∷ register_enum "cert-managerio.CertificateSpecPrivateKeyRotationPolicy"
        "CertificateSpecPrivateKeyRotationPolicy"
        (("NEVER", "CertificateSpecPrivateKeyRotationPolicy_NEVER")
          ∷ ("ALWAYS", "CertificateSpecPrivateKeyRotationPolicy_ALWAYS")
          ∷ [])
    ∷ register_struct "cert-managerio.CertificateSpecSecretTemplate" "CertificateSpecSecretTemplate"
    ∷ register_struct "cert-managerio.CertificateSpecSubject" "CertificateSpecSubject"
    ∷ register_enum "cert-managerio.CertificateSpecUsages" "CertificateSpecUsages" (
        ("SIGNING", "CertificateSpecUsages_SIGNING")
        ∷ ("DIGITAL_SIGNATURE", "CertificateSpecUsages_DIGITAL_SIGNATURE")
        ∷ ("CONTENT_COMMITMENT", "CertificateSpecUsages_CONTENT_COMMITMENT")
        ∷ ("KEY_ENCIPHERMENT", "CertificateSpecUsages_KEY_ENCIPHERMENT")
        ∷ ("KEY_AGREEMENT", "CertificateSpecUsages_KEY_AGREEMENT")
        ∷ ("DATA_ENCIPHERMENT", "CertificateSpecUsages_DATA_ENCIPHERMENT")
        ∷ ("CERT_SIGN", "CertificateSpecUsages_CERT_SIGN")
        ∷ ("CRL_SIGN", "CertificateSpecUsages_CRL_SIGN")
        ∷ ("ENCIPHER_ONLY", "CertificateSpecUsages_ENCIPHER_ONLY")
        ∷ ("DECIPHER_ONLY", "CertificateSpecUsages_DECIPHER_ONLY")
        ∷ ("ANY", "CertificateSpecUsages_ANY")
        ∷ ("SERVER_AUTH", "CertificateSpecUsages_SERVER_AUTH")
        ∷ ("CLIENT_AUTH", "CertificateSpecUsages_CLIENT_AUTH")
        ∷ ("CODE_SIGNING", "CertificateSpecUsages_CODE_SIGNING")
        ∷ ("EMAIL_PROTECTION", "CertificateSpecUsages_EMAIL_PROTECTION")
        ∷ ("S_MIME", "CertificateSpecUsages_S_MIME")
        ∷ ("IPSEC_END_SYSTEM", "CertificateSpecUsages_IPSEC_END_SYSTEM")
        ∷ ("IPSEC_TUNNEL", "CertificateSpecUsages_IPSEC_TUNNEL")
        ∷ ("IPSEC_USER", "CertificateSpecUsages_IPSEC_USER")
        ∷ ("TIMESTAMPING", "CertificateSpecUsages_TIMESTAMPING")
        ∷ ("OCSP_SIGNING", "CertificateSpecUsages_OCSP_SIGNING")
        ∷ ("MICROSOFT_SGC", "CertificateSpecUsages_MICROSOFT_SGC")
        ∷ ("NETSCAPE_SGC", "CertificateSpecUsages_NETSCAPE_SGC")
        ∷ [])
    ∷ []

abbrev pub series_init_1 : List Registration
series_init_1 =
    register_class "devopstoolkitseriescom.SqlClaim" "SqlClaim" api_object_members
      "jsiiProxy_SqlClaim"
    ∷ register_struct "devopstoolkitseriescom.SqlClaimProps" "SqlClaimProps"
    ∷ register_struct "devopstoolkitseriescom.SqlClaimSpec" "SqlClaimSpec"
    ∷ register_enum "devopstoolkitseriescom.SqlClaimSpecCompositeDeletePolicy"
        "SqlClaimSpecCompositeDeletePolicy"
        (("BACKGROUND", "SqlClaimSpecCompositeDeletePolicy_BACKGROUND")
          ∷ ("FOREGROUND", "SqlClaimSpecCompositeDeletePolicy_FOREGROUND")
          ∷ [])
    ∷ register_struct "devopstoolkitseriescom.SqlClaimSpecCompositionRef"
        "SqlClaimSpecCompositionRef"
    ∷ register_struct "devopstoolkitseriescom.SqlClaimSpecCompositionRevisionRef"
        "SqlClaimSpecCompositionRevisionRef"
    ∷ register_struct "devopstoolkitseriescom.SqlClaimSpecCompositionSelector"
        "SqlClaimSpecCompositionSelector"
    ∷ register_enum "devopstoolkitseriescom.SqlClaimSpecCompositionUpdatePolicy"
        "SqlClaimSpecCompositionUpdatePolicy"
        (("AUTOMATIC", "SqlClaimSpecCompositionUpdatePolicy_AUTOMATIC")
          ∷ ("MANUAL", "SqlClaimSpecCompositionUpdatePolicy_MANUAL")
          ∷ [])
    ∷ register_struct "devopstoolkitseriescom.SqlClaimSpecParameters" "SqlClaimSpecParameters"
    ∷ register_struct "devopstoolkitseriescom.SqlClaimSpecPublishConnectionDetailsTo"
        "SqlClaimSpecPublishConnectionDetailsTo"
    ∷ register_struct "devopstoolkitseriescom.SqlClaimSpecPublishConnectionDetailsToConfigRef"
        "SqlClaimSpecPublishConnectionDetailsToConfigRef"
    ∷ register_struct "devopstoolkitseriescom.SqlClaimSpecPublishConnectionDetailsToMetadata"
        "SqlClaimSpecPublishConnectionDetailsToMetadata"
    ∷ register_struct "devopstoolkitseriescom.SqlClaimSpecResourceRef" "SqlClaimSpecResourceRef"
    ∷ register_struct "devopstoolkitseriescom.SqlClaimSpecWriteConnectionSecretToRef"
        "SqlClaimSpecWriteConnectionSecretToRef"
    ∷ []

abbrev pub external_secrets_init_1 : List Registration
external_secrets_init_1 =
    register_class "external-secretsio.ExternalSecret" "ExternalSecret" api_object_members
      "jsiiProxy_ExternalSecret"
    ∷ register_struct "external-secretsio.ExternalSecretProps" "ExternalSecretProps"
    ∷ register_struct "external-secretsio.ExternalSecretSpec" "ExternalSecretSpec"
    ∷ register_struct "external-secretsio.ExternalSecretSpecData" "ExternalSecretSpecData"
    ∷ register_struct "external-secretsio.ExternalSecretSpecDataFrom" "ExternalSecretSpecDataFrom"
    ∷ register_struct "external-secretsio.ExternalSecretSpecDataRemoteRef"
        "ExternalSecretSpecDataRemoteRef"
    ∷ register_struct "external-secretsio.ExternalSecretSpecSecretStoreRef"
        "ExternalSecretSpecSecretStoreRef"
    ∷ register_struct "external-secretsio.ExternalSecretSpecTarget" "ExternalSecretSpecTarget"
    ∷ register_struct "external-secretsio.ExternalSecretSpecTargetTemplate"
        "ExternalSecretSpecTargetTemplate"
    ∷ register_struct "external-secretsio.ExternalSecretSpecTargetTemplateMetadata"
        "ExternalSecretSpecTargetTemplateMetadata"
    ∷ register_struct "external-secretsio.ExternalSecretSpecTargetTemplateTemplateFrom"
        "ExternalSecretSpecTargetTemplateTemplateFrom"
    ∷ register_struct "external-secretsio.ExternalSecretSpecTargetTemplateTemplateFromConfigMap"
        "ExternalSecretSpecTargetTemplateTemplateFromConfigMap"
    ∷ register_struct
        "external-secretsio.ExternalSecretSpecTargetTemplateTemplateFromConfigMapItems"
        "ExternalSecretSpecTargetTemplateTemplateFromConfigMapItems"
    ∷ register_struct "external-secretsio.ExternalSecretSpecTargetTemplateTemplateFromSecret"
        "ExternalSecretSpecTargetTemplateTemplateFromSecret"
    ∷ register_struct "external-secretsio.ExternalSecretSpecTargetTemplateTemplateFromSecretItems"
        "ExternalSecretSpecTargetTemplateTemplateFromSecretItems"
    ∷ register_class "external-secretsio.ExternalSecretV1Beta1" "ExternalSecretV1Beta1"
        api_object_members "jsiiProxy_ExternalSecretV1Beta1"
    ∷ register_struct "external-secretsio.ExternalSecretV1Beta1Props" "ExternalSecretV1Beta1Props"
    ∷ register_struct "external-secretsio.ExternalSecretV1Beta1Spec" "ExternalSecretV1Beta1Spec"
    ∷ register_struct "external-secretsio.ExternalSecretV1Beta1SpecData"
        "ExternalSecretV1Beta1SpecData"
    ∷ register_struct "external-secretsio.ExternalSecretV1Beta1SpecDataFrom"
        "ExternalSecretV1Beta1SpecDataFrom"
    ∷ register_struct "external-secretsio.ExternalSecretV1Beta1SpecDataFromExtract"
        "ExternalSecretV1Beta1SpecDataFromExtract"
    ∷ register_struct "external-secretsio.ExternalSecretV1Beta1SpecDataFromFind"
        "ExternalSecretV1Beta1SpecDataFromFind"
    ∷ register_struct "external-secretsio.ExternalSecretV1Beta1SpecDataFromFindName"
        "ExternalSecretV1Beta1SpecDataFromFindName"
    ∷ register_struct "external-secretsio.ExternalSecretV1Beta1SpecDataFromRewrite"
        "ExternalSecretV1Beta1SpecDataFromRewrite"
    ∷ register_struct "external-secretsio.ExternalSecretV1Beta1SpecDataFromRewriteRegexp"
        "ExternalSecretV1Beta1SpecDataFromRewriteRegexp"
    ∷ register_struct "external-secretsio.ExternalSecretV1Beta1SpecDataFromSourceRef"
        "ExternalSecretV1Beta1SpecDataFromSourceRef"
    ∷ register_struct "external-secretsio.ExternalSecretV1Beta1SpecDataFromSourceRefGeneratorRef"
        "ExternalSecretV1Beta1SpecDataFromSourceRefGeneratorRef"
    ∷ register_struct "external-secretsio.ExternalSecretV1Beta1SpecDataFromSourceRefStoreRef"
        "ExternalSecretV1Beta1SpecDataFromSourceRefStoreRef"
    ∷ []

abbrev pub external_secrets_init_2 : List Registration
external_secrets_init_2 =
    register_struct "external-secretsio.ExternalSecretV1Beta1SpecDataRemoteRef"
      "ExternalSecretV1Beta1SpecDataRemoteRef"
    ∷ register_struct "external-secretsio.ExternalSecretV1Beta1SpecDataSourceRef"
        "ExternalSecretV1Beta1SpecDataSourceRef"
    ∷ register_struct "external-secretsio.ExternalSecretV1Beta1SpecDataSourceRefGeneratorRef"
        "ExternalSecretV1Beta1SpecDataSourceRefGeneratorRef"
    ∷ register_struct "external-secretsio.ExternalSecretV1Beta1SpecDataSourceRefStoreRef"
        "ExternalSecretV1Beta1SpecDataSourceRefStoreRef"
    ∷ register_struct "external-secretsio.ExternalSecretV1Beta1SpecSecretStoreRef"
        "ExternalSecretV1Beta1SpecSecretStoreRef"
    ∷ register_struct "external-secretsio.ExternalSecretV1Beta1SpecTarget"
        "ExternalSecretV1Beta1SpecTarget"
    ∷ register_enum "external-secretsio.ExternalSecretV1Beta1SpecTargetCreationPolicy"
        "ExternalSecretV1Beta1SpecTargetCreationPolicy"
        (("OWNER", "ExternalSecretV1Beta1SpecTargetCreationPolicy_OWNER")
          ∷ ("ORPHAN", "ExternalSecretV1Beta1SpecTargetCreationPolicy_ORPHAN")
          ∷ ("MERGE", "ExternalSecretV1Beta1SpecTargetCreationPolicy_MERGE")
          ∷ ("NONE", "ExternalSecretV1Beta1SpecTargetCreationPolicy_NONE")
          ∷ [])
    ∷ register_enum "external-secretsio.ExternalSecretV1Beta1SpecTargetDeletionPolicy"
        "ExternalSecretV1Beta1SpecTargetDeletionPolicy"
        (("DELETE", "ExternalSecretV1Beta1SpecTargetDeletionPolicy_DELETE")
          ∷ ("MERGE", "ExternalSecretV1Beta1SpecTargetDeletionPolicy_MERGE")
          ∷ ("RETAIN", "ExternalSecretV1Beta1SpecTargetDeletionPolicy_RETAIN")
          ∷ [])
    ∷ register_struct "external-secretsio.ExternalSecretV1Beta1SpecTargetTemplate"
        "ExternalSecretV1Beta1SpecTargetTemplate"
    ∷ register_struct "external-secretsio.ExternalSecretV1Beta1SpecTargetTemplateMetadata"
        "ExternalSecretV1Beta1SpecTargetTemplateMetadata"
    ∷ register_struct "external-secretsio.ExternalSecretV1Beta1SpecTargetTemplateTemplateFrom"
        "ExternalSecretV1Beta1SpecTargetTemplateTemplateFrom"
    ∷ register_struct
        "external-secretsio.ExternalSecretV1Beta1SpecTargetTemplateTemplateFromConfigMap"
        "ExternalSecretV1Beta1SpecTargetTemplateTemplateFromConfigMap"
    ∷ register_struct
        "external-secretsio.ExternalSecretV1Beta1SpecTargetTemplateTemplateFromConfigMapItems"
        "ExternalSecretV1Beta1SpecTargetTemplateTemplateFromConfigMapItems"
    ∷ register_struct "external-secretsio.ExternalSecretV1Beta1SpecTargetTemplateTemplateFromSecret"
        "ExternalSecretV1Beta1SpecTargetTemplateTemplateFromSecret"
    ∷ register_struct
        "external-secretsio.ExternalSecretV1Beta1SpecTargetTemplateTemplateFromSecretItems"
        "ExternalSecretV1Beta1SpecTargetTemplateTemplateFromSecretItems"
    ∷ []
