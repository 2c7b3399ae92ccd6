-- ===== src/Desktopcore/Auth.antt =====
-- internal/desktopcore/oplog_auth.go: whether an operation of another device is accepted. The key behind a peer
-- identifier (libp2p) and the marshalling are a parameter.
use ben_desktop.Base.{
  ℕ, ◌≡◌, inl, inr, Bool, true, false, ◌||◌, String, Option, none, some, List, [], ◌∷◌, arith, ◌==◌,
  is_blank, trim_space, if◌then◌else◌, Option-cases,
}
use ben_desktop.Registryauth.{
  Bytes, AdmissionAuthorityEnvelope, MembershipCertEnvelope, Crypto,
  verify_historical_membership_cert,
}
use ben_desktop.Registryauth.Trust.{IsTrusted}
use ben_desktop.Registryauth.Certs.{IsFor, IsSealed, verify_historical_membership_cert_sound}
use ben_desktop.Desktopcore.Helpers.{normalize_role}
use ben_desktop.Desktopcore.Oplog.{CheckpointOplogEntry}

-- What the signer of an operation signs, before it is marshalled.
pub record OplogBody : Type 0 where
  pub op_id : String
  pub device_id : String
  pub seq : ℕ
  pub ts_ns : ℕ
  pub entity_type : String
  pub entity_id : String
  pub op_kind : String
  pub payload : String
  pub signer_peer_id : String
  pub signer_authority_version : ℕ
  pub signer_cert_serial : ℕ
  pub signer_role : String
  pub signer_issued_at : ℕ
  pub signer_expires_at : ℕ
  pub signer_cert_sig : Bytes

pub record Peers : Type 0 where
  -- `peer.Decode` and `ExtractPublicKey`
  pub public_key : String → Option Bytes
  pub verify : Bytes → Bytes → Bytes → Bool
  pub marshal : OplogBody → Option Bytes

-- `oplogSigningPayload`
unfoldable pub oplog_signing_body : (String → String) → CheckpointOplogEntry → OplogBody
unfolding normalize_role
oplog_signing_body to_lower e = record {
  op_id = trim_space e.op_id;
  device_id = trim_space e.device_id;
  seq = e.seq;
  ts_ns = e.tsns;
  entity_type = trim_space e.entity_type;
  entity_id = trim_space e.entity_id;
  op_kind = trim_space e.op_kind;
  payload = trim_space e.payload_json;
  signer_peer_id = trim_space e.signer_peer_id;
  signer_authority_version = e.signer_authority_version;
  signer_cert_serial = e.signer_cert_serial;
  signer_role = normalize_role to_lower e.signer_role;
  signer_issued_at = e.signer_issued_at;
  signer_expires_at = e.signer_expires_at;
  signer_cert_sig = e.signer_cert_sig;
}

-- The certificate that an operation carries in its fields.
unfoldable pub signer_cert :
    (String → String) → String → CheckpointOplogEntry → MembershipCertEnvelope
unfolding normalize_role
signer_cert to_lower library e = record {
  library_id = trim_space library;
  device_id = trim_space e.device_id;
  peer_id = trim_space e.signer_peer_id;
  role = normalize_role to_lower e.signer_role;
  authority_version = e.signer_authority_version;
  serial = e.signer_cert_serial;
  issued_at = e.signer_issued_at;
  expires_at = e.signer_expires_at;
  sig = e.signer_cert_sig;
}

abbrev pub is_none {ℓ} : {A : Type ℓ} → List A → Bool
is_none [] = true
is_none (x ∷ xs) = false

unfoldable pub check_fields : CheckpointOplogEntry → Option String
check_fields e =
    if is_blank (trim_space e.device_id) || is_blank (trim_space e.op_id)
    then some "invalid oplog identity fields"
    else if is_blank (trim_space e.signer_peer_id)
        || (e.signer_cert_serial == 0
            || (e.signer_authority_version == 0 || is_none e.signer_cert_sig))
    then some "missing oplog signer metadata"
    else if is_none e.sig
    then some "missing oplog signature"
    else none

module _ (crypto : Crypto) (peers : Peers) where
  -- The signature of the operation, by the key of the peer.
  unfoldable pub check_op_signature : CheckpointOplogEntry → Option String
  unfolding oplog_signing_body
  check_op_signature e = elim (peers.public_key (trim_space e.signer_peer_id)) [
    | none ↦ some "decode oplog signer peer id"
    | some key ↦ elim (peers.marshal (oplog_signing_body crypto.to_lower e)) [
      | none ↦ some "marshal oplog signing payload"
      | some payload ↦
          if peers.verify key payload e.sig then none else some "invalid oplog signature"
    ]
  ]

  -- `verifyCheckpointOplogEntryTx`: `rows` are the authorities of the library, and `root` its key; a library
  -- that is not there is an error.
  unfoldable pub verify_checkpoint_oplog_entry :
      List AdmissionAuthorityEnvelope
      → Option String
      → String
      → CheckpointOplogEntry
      → Option String
  unfolding check_fields signer_cert check_op_signature
  verify_checkpoint_oplog_entry rows root library e = elim (check_fields e) [
    | some message ↦ some message
    | none ↦ elim root [
      | none ↦ some "record not found"
      | some root_key ↦
          elim (verify_historical_membership_cert crypto (signer_cert crypto.to_lower library e)
            rows (trim_space root_key) library e.device_id e.signer_peer_id) [
              | some message ↦ some message
              | none ↦ check_op_signature e
            ]
    ]
  ]

  check_op_signature-key :
      (e : CheckpointOplogEntry)
      → check_op_signature e ≡ none
      → (key : Bytes) × (payload : Bytes) × (peers.public_key (trim_space e.signer_peer_id)
          ≡ some key)
        × (peers.marshal (oplog_signing_body crypto.to_lower e) ≡ some payload)
        × (peers.verify key payload e.sig ≡ true)
  unfolding check_op_signature
  check_op_signature-key e h =
      elim (Option-cases (peers.public_key (trim_space e.signer_peer_id))) [
        | inl broken ↦ absurd (ground (arith, rw (broken, check_op_signature) at h))
        | inr (key, decoded) ↦
            elim (Option-cases (peers.marshal (oplog_signing_body crypto.to_lower e))) [
              | inl broken ↦ absurd (ground (arith, rw (decoded, broken, check_op_signature) at h))
              | inr (payload, made) ↦ (
                key,
                payload,
                decoded,
                made,
                ground (arith, rw (decoded, made, check_op_signature) at h),
              )
            ]
      ]

  -- An operation that is accepted is signed by the key of a peer, and the certificate that it carries is
  -- sealed for this peer, its device and the library by an authority that the root of the library vouches for.
  pub verify_checkpoint_oplog_entry_sound :
      (rows : List AdmissionAuthorityEnvelope) (root library : String) (e : CheckpointOplogEntry)
      → verify_checkpoint_oplog_entry rows (some root) library e ≡ none
      → ((key : Bytes) × (payload : Bytes) × (peers.public_key (trim_space e.signer_peer_id)
            ≡ some key)
          × (peers.marshal (oplog_signing_body crypto.to_lower e) ≡ some payload)
          × (peers.verify key payload e.sig ≡ true))
        × IsFor crypto (signer_cert crypto.to_lower library e) library e.device_id e.signer_peer_id
        × ((d : AdmissionAuthorityEnvelope) × IsTrusted crypto library (trim_space root) d
            × (d.version ≡ e.signer_authority_version)
            × IsSealed crypto (signer_cert crypto.to_lower library e) d)
  unfolding verify_checkpoint_oplog_entry signer_cert
  verify_checkpoint_oplog_entry_sound rows root library e h =
      let cert = signer_cert crypto.to_lower library e in
      elim (Option-cases (check_fields e)) [
        | inr (message, bad) ↦ absurd (ground (arith, rw (bad, verify_checkpoint_oplog_entry) at h))
        | inl good ↦
            elim (Option-cases (
              verify_historical_membership_cert crypto cert rows (trim_space root) library
                e.device_id e.signer_peer_id)) [
                  | inr (message, bad) ↦
                      absurd (ground (arith, rw (good, bad, verify_checkpoint_oplog_entry) at h))
                  | inl sealed ↦
                      let cert_ok =
                        verify_historical_membership_cert_sound crypto cert rows (trim_space root)
                          library e.device_id e.signer_peer_id sealed in
                      (
                        check_op_signature-key e
                            (rw (good, sealed, verify_checkpoint_oplog_entry) at h),
                        cert_ok.0,
                        cert_ok.2,
                      )
                ]
      ]
