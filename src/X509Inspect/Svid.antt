-- ===== src/X509Inspect/Svid.antt =====
-- inspector.go: the check of an X.509-SVID, with one reason for each rule that is broken.
pub mod Conformance
use Prim.Native.String
use spiffecli.Prelude.{
  ℕ, Bool, true, false, not, Option, none, some, List, [], ◌∷◌, ◌++◌, ok, err, String, ◌==◌, lookup,
  if◌then◌else◌, is_empty,
}
use spiffecli.Prelude.Int.{ltb_ℤ}
use spiffecli.Cert.{Uri, Cert, X509Lib}
use spiffecli.X509Inspect.Certificate.{EkuName, known, unknown, has_bit, decode_eku}

pub data Reason : Type 0 where
  no_uri many_uris bad_uri : Reason
  is_a_ca no_basic_constraints : Reason
  no_digital_signature has_cert_sign has_crl_sign : Reason
  bad_eku : EkuName → Reason
  unknown_eku_oid : String → Reason
  bad_validity : Reason

-- a reason under a test
abbrev pub reason_if : Bool → Reason → List Reason
reason_if b r = if b then r ∷ [] else []

-- `allowedEKUs[eku]`: serverAuth or clientAuth
unfoldable pub is_allowed_eku : ℕ → Bool
is_allowed_eku eku = if eku == 1 then true else eku == 2

-- `extKeyUsageNames[eku]`, or `unknown(%d)` where the name is empty
unfoldable pub eku_reasons : List ℕ → List Reason
unfolding decode_eku
eku_reasons [] = []
eku_reasons (eku ∷ ekus) =
    reason_if (not (is_allowed_eku eku)) (bad_eku (decode_eku eku)) ++ eku_reasons ekus

unfoldable pub oid_reasons : List String → List Reason
oid_reasons [] = []
oid_reasons (oid ∷ oids) = unknown_eku_oid oid ∷ oid_reasons oids

module _ (lib : X509Lib) where
  unfoldable pub uri_reasons : List Uri → List Reason
  uri_reasons [] = no_uri ∷ []
  uri_reasons (u ∷ []) = elim (lib.from_uri u) [ ok sid ↦ [] | err e ↦ bad_uri ∷ [] ]
  uri_reasons (u ∷ u' ∷ us) = many_uris ∷ []

  unfoldable pub svid_reasons : Cert → List Reason
  svid_reasons cert =
      uri_reasons cert.uris
      ++ (reason_if cert.is_ca is_a_ca
          ++ (reason_if (not cert.basic_constraints_valid) no_basic_constraints
              ++ (reason_if (not (has_bit cert.key_usage 1)) no_digital_signature
                  ++ (reason_if (has_bit cert.key_usage 32) has_cert_sign
                      ++ (reason_if (has_bit cert.key_usage 64) has_crl_sign
                          ++ (eku_reasons cert.ext_key_usage
                              ++ (oid_reasons cert.unknown_ext_key_usage
                                  ++ reason_if (not (ltb_ℤ cert.not_before cert.not_after))
                                      bad_validity)))))))

  unfoldable pub check_is_svid : Cert → Bool × List Reason
  check_is_svid cert = (is_empty (svid_reasons cert), svid_reasons cert)
