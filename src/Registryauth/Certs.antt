-- ===== src/Registryauth/Certs.antt =====
-- shared/registryauth/registryauth.go: what an accepted certificate shows.
use ben_desktop.Base.{
  ℕ, ◌≤◌, ◌<◌, ◌≡◌, refl, sym, subst, ◌⊎◌, inl, inr, true, false, String, none, some, List, [], ◌∷◌,
  arith, ltb, ◌==◌, is_blank, str_eq_iff, trim_space, Bool-cases, Option-cases,
}
use ben_desktop.Registryauth.{
  Bytes, AdmissionAuthorityEnvelope, MembershipCertEnvelope, Crypto, Verdict, accept, reject,
  find_version, decode_public_key, cert_payload, verify_admission_authority_chain, check_signature,
  check_identity, verify_membership_cert, verify_historical_membership_cert,
}
use ben_desktop.Registryauth.Trust.{Member, IsTrusted, verify_chain-Checked}

Verdict-cases :
    (v : Verdict AdmissionAuthorityEnvelope)
    → ((d : AdmissionAuthorityEnvelope) × (v ≡ accept d))
      ⊎ ((message : String) × (v ≡ reject message))
Verdict-cases (accept d) = inl (d, refl)
Verdict-cases (reject message) = inr (message, refl)

find_version-Member :
    (chain : List AdmissionAuthorityEnvelope) (version : ℕ) (d : AdmissionAuthorityEnvelope)
    → find_version chain version ≡ some d
    → Member d chain × (d.version ≡ version)
unfolding find_version
find_version-Member [] version d h = absurd (ground arith)
find_version-Member (x ∷ chain) version d h = elim (Bool-cases (x.version == version)) [
  | inl hit ↦
      let same : x ≡ d = cc (rw hit at h) in
      (inl (sym same), subst (λ y. y.version ≡ version) same (ground (arith, hit)))
  | inr miss ↦ let ih = find_version-Member chain version d (rw miss at h) in (inr ih.0, ih.1)
]

module _ (crypto : Crypto) (cert : MembershipCertEnvelope) where
  -- The certificate is signed by the key of the authority.
  abbrev pub IsSealed : AdmissionAuthorityEnvelope → Type 0
  IsSealed authority =
      (key : Bytes) × (payload : Bytes) × (decode_public_key crypto authority.public_key ≡ some key)
      × (cert_payload crypto cert ≡ some payload)
      × (crypto.verify key payload cert.sig ≡ true)

  check_signature-IsSealed :
      (chain : List AdmissionAuthorityEnvelope)
      → check_signature crypto cert chain ≡ none
      → (d : AdmissionAuthorityEnvelope) × Member d chain
        × (d.version ≡ cert.authority_version)
        × IsSealed d
  unfolding check_signature
  check_signature-IsSealed chain h =
      elim (Option-cases (find_version chain cert.authority_version)) [
        | inl gone ↦ absurd (ground (arith, rw (gone, check_signature) at h))
        | inr (d, found) ↦ elim (Option-cases (decode_public_key crypto d.public_key)) [
          | inl broken ↦ absurd (ground (arith, rw (found, broken, check_signature) at h))
          | inr (key, decoded) ↦ elim (Option-cases (cert_payload crypto cert)) [
            | inl broken ↦
                absurd (ground (arith, rw (found, decoded, broken, check_signature) at h))
            | inr (payload, made) ↦
                let at = find_version-Member chain cert.authority_version d found in
                (
                  d,
                  at.0,
                  at.1,
                  (
                    key,
                    payload,
                    decoded,
                    made,
                    ground (arith, rw (found, decoded, made, check_signature) at h),
                  ),
                )
          ]
        ]
      ]

  -- The certificate is for this device of this library, behind this peer.
  abbrev pub IsFor : String → String → String → Type 0
  IsFor library device peer =
      (trim_space cert.library_id ≡ trim_space library)
      × (trim_space cert.device_id ≡ trim_space device)
      × (trim_space cert.peer_id ≡ trim_space peer)
      × (is_blank (trim_space cert.peer_id) ≡ false)

  check_identity-IsFor :
      (library device peer : String)
      → check_identity cert library device peer ≡ none
      → IsFor library device peer
  unfolding check_identity
  check_identity-IsFor library device peer h = (
    (str_eq_iff (trim_space cert.library_id) (trim_space library)).0 (ground (arith, h)),
    (str_eq_iff (trim_space cert.device_id) (trim_space device)).0 (ground (arith, h)),
    (str_eq_iff (trim_space cert.peer_id) (trim_space peer)).0 (ground (arith, h)),
    ground (arith, h),
  )

  -- A certificate that is accepted is for the device and the peer that present it, has not expired, and is
  -- sealed by an authority that the root vouches for and that no authority of the chain is newer than.
  pub verify_membership_cert_sound :
      (chain : List AdmissionAuthorityEnvelope) (root : String) (now : ℕ)
      (library device peer : String)
      → verify_membership_cert crypto cert chain root now library device peer ≡ none
      → IsFor library device peer
        × (0 < cert.serial)
        × ((cert.expires_at ≡ 0) ⊎ (now ≤ cert.expires_at))
        × ((d : AdmissionAuthorityEnvelope) × IsTrusted crypto library root d
            × (d.version ≡ cert.authority_version)
            × IsSealed d
            × ((x : AdmissionAuthorityEnvelope) → Member x chain → x.version ≤ d.version))
  unfolding verify_membership_cert
  verify_membership_cert_sound chain root now library device peer h =
      elim (Option-cases (check_identity cert library device peer)) [
        | inr (message, bad) ↦ absurd (ground (arith, rw (bad, verify_membership_cert) at h))
        | inl good ↦
            elim (Verdict-cases (verify_admission_authority_chain crypto library chain root)) [
              | inr (message, bad) ↦
                  absurd (ground (arith, rw (good, bad, verify_membership_cert) at h))
              | inl (head, verified) ↦
                  let rest = rw (good, verified, verify_membership_cert) at h in
                  let seal = check_signature-IsSealed chain (ground (arith, rest)) in
                  let checked = (verify_chain-Checked crypto library root chain head verified).0 in
                  let fresh : head.version ≡ cert.authority_version = ground (arith, rest) in
                  (
                    check_identity-IsFor library device peer good,
                    ground (arith, rest),
                    elim (Bool-cases (ltb 0 cert.expires_at)) [
                      | inl limited ↦ inr (ground (arith, rest, limited))
                      | inr open_end ↦ inl (ground (arith, open_end))
                    ],
                    (
                      seal.0,
                      checked.trusted seal.0 seal.1,
                      seal.2,
                      seal.3,
                      λ x m. omega (arith, checked.latest x m, fresh, seal.2),
                    ),
                  )
            ]
      ]

  -- The same of a certificate of the past, whatever its expiry and whatever authority has come since.
  pub verify_historical_membership_cert_sound :
      (chain : List AdmissionAuthorityEnvelope) (root library device peer : String)
      → verify_historical_membership_cert crypto cert chain root library device peer ≡ none
      → IsFor library device peer
        × (0 < cert.serial)
        × ((d : AdmissionAuthorityEnvelope) × IsTrusted crypto library root d
            × (d.version ≡ cert.authority_version)
            × IsSealed d)
  unfolding verify_historical_membership_cert
  verify_historical_membership_cert_sound chain root library device peer h =
      elim (Option-cases (check_identity cert library device peer)) [
        | inr (message, bad) ↦
            absurd (ground (arith, rw (bad, verify_historical_membership_cert) at h))
        | inl good ↦
            elim (Verdict-cases (verify_admission_authority_chain crypto library chain root)) [
              | inr (message, bad) ↦
                  absurd (ground (arith, rw (good, bad, verify_historical_membership_cert) at h))
              | inl (head, verified) ↦
                  let rest = rw (good, verified, verify_historical_membership_cert) at h in
                  let seal = check_signature-IsSealed chain (ground (arith, rest)) in
                  let checked = (verify_chain-Checked crypto library root chain head verified).0 in
                  (
                    check_identity-IsFor library device peer good,
                    ground (arith, rest),
                    (seal.0, checked.trusted seal.0 seal.1, seal.2, seal.3),
                  )
            ]
      ]
