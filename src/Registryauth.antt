-- ===== src/Registryauth.antt =====
-- shared/registryauth/registryauth.go: the chain of admission authorities and the certificates of members.
-- Ed25519, base64, JSON and `strings.ToLower` are a parameter.
use ben_desktop.Base.{
  ℕ, ◌+◌, ◌≡◌, refl, ap, ◌⊎◌, inl, inr, Bool, true, false, ◌&&◌, ◌||◌, not, String, Option, none,
  some, List, [], ◌∷◌, length, ltb, leb, ◌==◌, is_blank, str_eq, trim_space, if◌then◌else◌,
}
pub mod Trust
pub mod Certs
pub mod Tests

abbrev pub Bytes : Type 0
Bytes = List ℕ

pub record AdmissionAuthorityEnvelope : Type 0 where
  pub version : ℕ
  pub public_key : String
  pub prev_version : ℕ
  pub signed_by_kind : String
  pub sig : Bytes
  pub created_at : ℕ

pub record MembershipCertEnvelope : Type 0 where
  pub library_id : String
  pub device_id : String
  pub peer_id : String
  pub role : String
  pub authority_version : ℕ
  pub serial : ℕ
  pub issued_at : ℕ
  pub expires_at : ℕ
  pub sig : Bytes

-- What is signed, before it is marshalled.
pub record AuthorityBody : Type 0 where
  pub library_id : String
  pub version : ℕ
  pub public_key : String
  pub prev_version : ℕ
  pub signed_by_kind : String
  pub created_at_ns : ℕ

pub record CertBody : Type 0 where
  pub library_id : String
  pub device_id : String
  pub peer_id : String
  pub role : String
  pub authority_version : ℕ
  pub serial : ℕ
  pub issued_at : ℕ
  pub expires_at : ℕ

pub record Crypto : Type 0 where
  pub to_lower : String → String
  pub base64 : String → Option Bytes
  -- key, message, signature
  pub verify : Bytes → Bytes → Bytes → Bool
  pub marshal_authority : AuthorityBody → Option Bytes
  pub marshal_cert : CertBody → Option Bytes

pub data Verdict {ℓ} (A : Type ℓ) : Type ℓ where
  accept : A → Verdict A
  reject : String → Verdict A

unfoldable pub insert_by_version :
    AdmissionAuthorityEnvelope → List AdmissionAuthorityEnvelope → List AdmissionAuthorityEnvelope
insert_by_version d [] = d ∷ []
insert_by_version d (x ∷ chain) =
    let rest = insert_by_version d chain in
    if leb d.version x.version then d ∷ x ∷ chain else x ∷ rest

-- `sort.Slice` by version; a chain with a version twice is refused in any order.
unfoldable pub sort_by_version : List AdmissionAuthorityEnvelope → List AdmissionAuthorityEnvelope
unfolding insert_by_version
sort_by_version [] = []
sort_by_version (d ∷ chain) = insert_by_version d (sort_by_version chain)

-- The first authority of a version, in the order in which the chain came.
unfoldable pub find_version :
    List AdmissionAuthorityEnvelope → ℕ → Option AdmissionAuthorityEnvelope
find_version [] version = none
find_version (d ∷ chain) version =
    let rest = find_version chain version in if d.version == version then some d else rest

abbrev pub zero_authority : AdmissionAuthorityEnvelope
zero_authority = record {
  version = 0;
  public_key = "";
  prev_version = 0;
  signed_by_kind = "";
  sig = [];
  created_at = 0;
}

-- The tests that both checks begin with.
unfoldable pub check_identity : MembershipCertEnvelope → String → String → String → Option String
check_identity cert library device peer =
    if not (str_eq (trim_space cert.library_id) (trim_space library))
    then some "membership certificate library mismatch"
    else if not (str_eq (trim_space cert.device_id) (trim_space device))
    then some "membership certificate device mismatch"
    else if is_blank (trim_space cert.peer_id)
        || not (str_eq (trim_space cert.peer_id) (trim_space peer))
    then some "membership certificate peer mismatch"
    else none

module _ (crypto : Crypto) where
  -- `NormalizeRole`
  unfoldable pub normalize_role : String → String
  normalize_role role = crypto.to_lower (trim_space role)

  unfoldable pub sized_key : Option Bytes → Option Bytes
  sized_key none = none
  sized_key (some key) = if length key == 32 then some key else none

  -- `DecodeEd25519PublicKey`
  unfoldable pub decode_public_key : String → Option Bytes
  unfolding sized_key
  decode_public_key encoded = sized_key (crypto.base64 (trim_space encoded))

  -- `AdmissionAuthoritySigningPayload`
  unfoldable pub authority_payload : String → AdmissionAuthorityEnvelope → Option Bytes
  authority_payload library d = crypto.marshal_authority (record {
    library_id = trim_space library;
    version = d.version;
    public_key = trim_space d.public_key;
    prev_version = d.prev_version;
    signed_by_kind = trim_space d.signed_by_kind;
    created_at_ns = d.created_at;
  })

  -- `MembershipCertSigningPayload`
  unfoldable pub cert_payload : MembershipCertEnvelope → Option Bytes
  unfolding normalize_role
  cert_payload cert = crypto.marshal_cert (record {
    library_id = trim_space cert.library_id;
    device_id = trim_space cert.device_id;
    peer_id = trim_space cert.peer_id;
    role = normalize_role cert.role;
    authority_version = cert.authority_version;
    serial = cert.serial;
    issued_at = cert.issued_at;
    expires_at = cert.expires_at;
  })

  -- The checks on the first authority; `none` is a pass.
  unfoldable pub check_root : Bytes → Bytes → AdmissionAuthorityEnvelope → Option String
  check_root root payload d =
      if not (d.prev_version == 0)
      then some "admission authority v1 prev version mismatch"
      else if not (str_eq (trim_space d.signed_by_kind) "root")
      then some "admission authority v1 must be root-signed"
      else if crypto.verify root payload d.sig
      then none
      else some "invalid admission authority root signature"

  -- The checks on a later authority, against the one before it.
  unfoldable pub check_rotation :
      AdmissionAuthorityEnvelope → Bytes → AdmissionAuthorityEnvelope → Option String
  unfolding decode_public_key
  check_rotation previous payload d =
      if not (d.prev_version == previous.version)
      then some "admission authority prev version mismatch"
      else if not (str_eq (trim_space d.signed_by_kind) "authority")
      then some "admission authority rotation must be authority-signed"
      else elim (decode_public_key previous.public_key) [
        | none ↦ some "decode prior admission authority key"
        | some key ↦
            if crypto.verify key payload d.sig
            then none
            else some "invalid admission authority rotation signature"
      ]

  -- The loop over the sorted chain: `idx` have been checked, the last of them is `previous`.
  unfoldable pub check_link :
      String → Bytes → AdmissionAuthorityEnvelope → AdmissionAuthorityEnvelope → Option String
  unfolding authority_payload check_root check_rotation
  check_link library root previous d = elim (authority_payload library d) [
    | none ↦ some "marshal admission authority payload"
    | some payload ↦
        if d.version == 1 then check_root root payload d else check_rotation previous payload d
  ]

  unfoldable pub check_chain :
      String
      → Bytes
      → ℕ
      → AdmissionAuthorityEnvelope
      → List AdmissionAuthorityEnvelope
      → Verdict AdmissionAuthorityEnvelope
  unfolding check_link
  check_chain library root idx previous [] = accept previous
  check_chain library root idx previous (d ∷ chain) =
      let rest = check_chain library root (idx + 1) d chain in
      if not (d.version == idx + 1)
      then reject "admission authority chain is not contiguous"
      else elim (check_link library root previous d) [ some message ↦ reject message | none ↦ rest ]

  -- `VerifyAdmissionAuthorityChain`
  unfoldable pub verify_admission_authority_chain :
      String → List AdmissionAuthorityEnvelope → String → Verdict AdmissionAuthorityEnvelope
  unfolding decode_public_key sort_by_version check_chain
  verify_admission_authority_chain library [] root_public_key =
      reject "admission authority chain is required"
  verify_admission_authority_chain library (d ∷ chain) root_public_key =
      elim (decode_public_key root_public_key) [
        | none ↦ reject "decode root public key"
        | some root ↦ check_chain library root 0 zero_authority (sort_by_version (d ∷ chain))
      ]

  -- The last part of both checks of a certificate: its signature, by the authority that it names.
  unfoldable pub check_signature :
      MembershipCertEnvelope → List AdmissionAuthorityEnvelope → Option String
  unfolding decode_public_key cert_payload find_version
  check_signature cert chain = elim (find_version chain cert.authority_version) [
    | none ↦ some "membership certificate authority not found"
    | some authority ↦ elim (decode_public_key authority.public_key) [
      | none ↦ some "decode membership authority key"
      | some key ↦ elim (cert_payload cert) [
        | none ↦ some "marshal membership certificate payload"
        | some payload ↦
            if crypto.verify key payload cert.sig
            then none
            else some "invalid membership certificate signature"
      ]
    ]
  ]

  -- `VerifyMembershipCert`
  unfoldable pub verify_membership_cert :
      MembershipCertEnvelope
      → List AdmissionAuthorityEnvelope
      → String
      → ℕ
      → String
      → String
      → String
      → Option String
  unfolding check_identity verify_admission_authority_chain check_signature
  verify_membership_cert cert chain root now library device peer =
      elim (check_identity cert library device peer) [
        | some message ↦ some message
        | none ↦
            if cert.serial == 0
            then some "membership certificate serial is invalid"
            else if cert.authority_version == 0
            then some "membership certificate authority version is invalid"
            else if ltb 0 cert.expires_at && ltb cert.expires_at now
            then some "membership certificate expired"
            else elim (verify_admission_authority_chain library chain root) [
              | reject message ↦ some message
              | accept head ↦
                  if head.version == cert.authority_version
                  then check_signature cert chain
                  else some "membership certificate authority version is stale"
            ]
      ]

  -- `VerifyHistoricalMembershipCert`
  unfoldable pub verify_historical_membership_cert :
      MembershipCertEnvelope
      → List AdmissionAuthorityEnvelope
      → String
      → String
      → String
      → String
      → Option String
  unfolding check_identity verify_admission_authority_chain check_signature
  verify_historical_membership_cert cert chain root library device peer =
      elim (check_identity cert library device peer) [
        | some message ↦ some message
        | none ↦
            if cert.serial == 0 || cert.authority_version == 0
            then some "membership certificate is invalid"
            else elim (verify_admission_authority_chain library chain root) [
              | reject message ↦ some message
              | accept head ↦ check_signature cert chain
            ]
      ]
