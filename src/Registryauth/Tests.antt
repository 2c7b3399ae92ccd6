-- ===== src/Registryauth/Tests.antt =====
-- The checks of chains, certificates and operations at concrete inputs.
use ben_desktop.Base.{
  ◌≤◌, ◌<◌, ◌≡◌, ◌⊎◌, refl, Bool, true, false, some, List, [], ◌∷◌, trim_space, replicate, ◌==◌,
  trim_left, trim_right, is_space,
}
use ben_desktop.Desktopcore.Helpers.{is_role}
use ben_desktop.Desktopcore.Helpers
use ben_desktop.Desktopcore.Oplog.{CheckpointOplogEntry}
use ben_desktop.Desktopcore.Auth.{
  Peers, check_fields, signer_cert, oplog_signing_body, check_op_signature,
  verify_checkpoint_oplog_entry, verify_checkpoint_oplog_entry_sound,
}
use ben_desktop.Registryauth.{
  Bytes, AdmissionAuthorityEnvelope, MembershipCertEnvelope, Crypto, insert_by_version,
  sort_by_version, find_version, normalize_role, sized_key, decode_public_key, authority_payload,
  cert_payload, check_root, check_rotation, check_link, check_chain,
  verify_admission_authority_chain, check_signature, check_identity, verify_membership_cert,
  verify_historical_membership_cert,
}
use ben_desktop.Registryauth.Trust.{Member, IsTrusted, Checked, verify_chain-Checked}
use ben_desktop.Registryauth.Certs.{IsFor, IsSealed, verify_membership_cert_sound}

-- Keys of 32 bytes; a signature is one that repeats the key's length.
abbrev is_signature : Bytes → Bool
is_signature [] = false
is_signature (b ∷ rest) = b == 7

abbrev crypto : Crypto
crypto = record {
  to_lower = λ s. s;
  base64 = λ s. some (replicate 32 1);
  verify = λ key message sig. is_signature sig;
  marshal_authority = λ b. some (b.version ∷ []);
  marshal_cert = λ b. some (b.serial ∷ []);
}

abbrev peers : Peers
peers = record {
  public_key = λ s. some (1 ∷ []);
  verify = λ key message sig. is_signature sig;
  marshal = λ b. some (b.seq ∷ []);
}

abbrev root_signed : AdmissionAuthorityEnvelope
root_signed = record {
  version = 1;
  public_key = "a";
  prev_version = 0;
  signed_by_kind = "root";
  sig = 7 ∷ [];
  created_at = 0;
}

abbrev rotated : AdmissionAuthorityEnvelope
rotated = record {
  version = 2;
  public_key = "b";
  prev_version = 1;
  signed_by_kind = "authority";
  sig = 7 ∷ [];
  created_at = 1;
}

abbrev chain : List AdmissionAuthorityEnvelope
chain = rotated ∷ root_signed ∷ []

abbrev cert : MembershipCertEnvelope
cert = record {
  library_id = "l";
  device_id = "d";
  peer_id = "s";
  role = "member";
  authority_version = 2;
  serial = 1;
  issued_at = 0;
  expires_at = 9;
  sig = 7 ∷ [];
}

abbrev op : CheckpointOplogEntry
op = record {
  op_id = "d:1";
  device_id = "d";
  seq = 1;
  tsns = 5;
  entity_type = "playlist";
  entity_id = "p";
  op_kind = "upsert";
  payload_json = "{}";
  signer_peer_id = "s";
  signer_authority_version = 1;
  signer_cert_serial = 1;
  signer_role = "member";
  signer_issued_at = 0;
  signer_expires_at = 0;
  signer_cert_sig = 7 ∷ [];
  sig = 7 ∷ [];
}

program : Unit {0}
unfolding insert_by_version sort_by_version find_version normalize_role sized_key decode_public_key
    authority_payload cert_payload check_root check_rotation check_link check_chain
    verify_admission_authority_chain check_signature check_identity verify_membership_cert
    verify_historical_membership_cert check_fields signer_cert oplog_signing_body check_op_signature
    verify_checkpoint_oplog_entry Helpers.normalize_role is_role trim_space trim_left trim_right
    is_space
program = tt

verify_chain-Checked_example : Checked crypto "l" "r" 0 chain rotated × Member rotated chain
unfolding program
verify_chain-Checked_example = verify_chain-Checked crypto "l" "r" chain rotated refl

verify_membership_cert_sound_example :
    IsFor crypto cert "l" "d" "s"
    × (0 < cert.serial)
    × ((cert.expires_at ≡ 0) ⊎ (8 ≤ cert.expires_at))
    × ((d : AdmissionAuthorityEnvelope) × IsTrusted crypto "l" "r" d
        × (d.version ≡ cert.authority_version)
        × IsSealed crypto cert d
        × ((x : AdmissionAuthorityEnvelope) → Member x chain → x.version ≤ d.version))
unfolding program
verify_membership_cert_sound_example =
    verify_membership_cert_sound crypto cert chain "r" 8 "l" "d" "s" refl

verify_checkpoint_oplog_entry_sound_example :
    ((key : Bytes) × (payload : Bytes) × (peers.public_key (trim_space op.signer_peer_id)
        ≡ some key)
      × (peers.marshal (oplog_signing_body crypto.to_lower op) ≡ some payload)
      × (peers.verify key payload op.sig ≡ true))
    × IsFor crypto (signer_cert crypto.to_lower "l" op) "l" op.device_id op.signer_peer_id
    × ((d : AdmissionAuthorityEnvelope) × IsTrusted crypto "l" (trim_space "r") d
        × (d.version ≡ op.signer_authority_version)
        × IsSealed crypto (signer_cert crypto.to_lower "l" op) d)
unfolding program
verify_checkpoint_oplog_entry_sound_example =
    verify_checkpoint_oplog_entry_sound crypto peers chain "r" "l" op refl
