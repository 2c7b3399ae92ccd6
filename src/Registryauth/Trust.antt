-- ===== src/Registryauth/Trust.antt =====
-- shared/registryauth/registryauth.go: what is accepted is signed, link by link, from the root on.
use ben_desktop.Base.{
  ℕ, ◌+◌, ◌≤◌, ◌≡◌, refl, sym, ap, subst, ◌⊎◌, inl, inr, true, String, none, some, List, [], ◌∷◌,
  arith, leb, ◌==◌, str_eq_iff, trim_space, Bool-cases, Option-cases,
}
use ben_desktop.Registryauth.{
  Bytes, AdmissionAuthorityEnvelope, Crypto, Verdict, accept, reject, insert_by_version,
  sort_by_version, decode_public_key, authority_payload, check_root, check_rotation, check_link,
  check_chain, zero_authority, verify_admission_authority_chain,
}

abbrev pub Member : AdmissionAuthorityEnvelope → List AdmissionAuthorityEnvelope → Type 0
Member d [] = ⊥
Member d (x ∷ chain) = (d ≡ x) ⊎ Member d chain

Member-insert :
    (d x : AdmissionAuthorityEnvelope) (chain : List AdmissionAuthorityEnvelope)
    → (x ≡ d) ⊎ Member x chain
    → Member x (insert_by_version d chain)
unfolding insert_by_version
Member-insert d x [] m = m
Member-insert d x (y ∷ chain) m = elim (Bool-cases (leb d.version y.version)) [
  | inl here ↦ rw here m
  | inr later ↦ rw later (elim m [
    | inl new ↦ inr (Member-insert d x chain (inl new))
    | inr (inl same) ↦ inl same
    | inr (inr old) ↦ inr (Member-insert d x chain (inr old))
  ])
]

Member-sort :
    (chain : List AdmissionAuthorityEnvelope) (x : AdmissionAuthorityEnvelope)
    → Member x chain
    → Member x (sort_by_version chain)
unfolding sort_by_version
Member-sort [] x m = elim m [ ]
Member-sort (d ∷ chain) x (inl same) = Member-insert d x (sort_by_version chain) (inl same)
Member-sort (d ∷ chain) x (inr old) =
    Member-insert d x (sort_by_version chain) (inr (Member-sort chain x old))

insert-Member :
    (d x : AdmissionAuthorityEnvelope) (chain : List AdmissionAuthorityEnvelope)
    → Member x (insert_by_version d chain)
    → (x ≡ d) ⊎ Member x chain
unfolding insert_by_version
insert-Member d x [] m = m
insert-Member d x (y ∷ chain) m = elim (Bool-cases (leb d.version y.version)) [
  | inl here ↦ rw here at m
  | inr later ↦ elim (rw later at m) [
    | inl same ↦ inr (inl same)
    | inr rest ↦ elim (insert-Member d x chain rest) [ inl new ↦ inl new | inr old ↦ inr (inr old) ]
  ]
]

sort-Member :
    (chain : List AdmissionAuthorityEnvelope) (x : AdmissionAuthorityEnvelope)
    → Member x (sort_by_version chain)
    → Member x chain
unfolding sort_by_version
sort-Member [] x m = m
sort-Member (d ∷ chain) x m = elim (insert-Member d x (sort_by_version chain) m) [
  | inl same ↦ inl same
  | inr old ↦ inr (sort-Member chain x old)
]

abbrev accepted :
    AdmissionAuthorityEnvelope → Verdict AdmissionAuthorityEnvelope → AdmissionAuthorityEnvelope
accepted d (accept x) = x
accepted d (reject message) = d

accept-inj : {x y : AdmissionAuthorityEnvelope} → accept x ≡ accept y → x ≡ y
accept-inj {x} e = ap (accepted x) e

module _ (crypto : Crypto) (library root_public_key : String) where
  -- The key verifies the signature of the authority.
  abbrev pub IsSignedBy : Bytes → AdmissionAuthorityEnvelope → Type 0
  IsSignedBy key d =
      (payload : Bytes) × (authority_payload crypto library d ≡ some payload)
      × (crypto.verify key payload d.sig ≡ true)

  -- An authority that the root has signed, or one that follows a trusted one and is signed by it.
  pub data IsTrusted : AdmissionAuthorityEnvelope → Type 0 where
    by_root :
        (d : AdmissionAuthorityEnvelope) (key : Bytes)
        → decode_public_key crypto root_public_key ≡ some key
        → d.version ≡ 1
        → d.prev_version ≡ 0
        → trim_space d.signed_by_kind ≡ "root"
        → IsSignedBy key d
        → IsTrusted d
    by_authority :
        (p d : AdmissionAuthorityEnvelope) (key : Bytes)
        → IsTrusted p
        → decode_public_key crypto p.public_key ≡ some key
        → d.version ≡ p.version + 1
        → d.prev_version ≡ p.version
        → trim_space d.signed_by_kind ≡ "authority"
        → IsSignedBy key d
        → IsTrusted d

  check_root-IsTrusted :
      (root payload : Bytes) (d : AdmissionAuthorityEnvelope)
      → decode_public_key crypto root_public_key ≡ some root
      → authority_payload crypto library d ≡ some payload
      → d.version ≡ 1
      → check_root crypto root payload d ≡ none
      → IsTrusted d
  unfolding check_root
  check_root-IsTrusted root payload d decoded made first h =
      by_root d root decoded first (ground (arith, h))
        ((str_eq_iff (trim_space d.signed_by_kind) "root").0 (ground (arith, h)))
        (payload, made, ground (arith, h))

  check_rotation-IsTrusted :
      (payload : Bytes) (p d : AdmissionAuthorityEnvelope)
      → IsTrusted p
      → authority_payload crypto library d ≡ some payload
      → d.version ≡ p.version + 1
      → check_rotation crypto p payload d ≡ none
      → IsTrusted d
  unfolding check_rotation
  check_rotation-IsTrusted payload p d trusted made next h =
      elim (Option-cases (decode_public_key crypto p.public_key)) [
        | inl broken ↦ absurd (ground (arith, h, broken))
        | inr (key, decoded) ↦
            by_authority p d key trusted decoded next (ground (arith, h))
              ((str_eq_iff (trim_space d.signed_by_kind) "authority").0 (ground (arith, h)))
              (payload, made, ground (arith, h, decoded))
      ]

  check_link-IsTrusted :
      (root : Bytes) (idx : ℕ) (p d : AdmissionAuthorityEnvelope)
      → decode_public_key crypto root_public_key ≡ some root
      → p.version ≡ idx
      → (idx ≡ 0) ⊎ IsTrusted p
      → d.version ≡ idx + 1
      → check_link crypto library root p d ≡ none
      → IsTrusted d
  unfolding check_link
  check_link-IsTrusted root idx p d decoded at start next h =
      elim (Option-cases (authority_payload crypto library d)) [
        | inl broken ↦ absurd (ground (arith, rw (broken, check_link) at h))
        | inr (payload, made) ↦ elim (Bool-cases (d.version == 1)) [
          | inl first ↦
              check_root-IsTrusted root payload d decoded made (ground (arith, first))
                (rw (made, first, check_link) at h)
          | inr later ↦ elim start [
            | inl zero ↦ absurd (ground (arith, later, next, zero))
            | inr trusted ↦
                check_rotation-IsTrusted payload p d trusted made (omega (arith, next, at))
                  (rw (made, later, check_link) at h)
          ]
        ]
      ]

  -- What the loop establishes of a chain that it accepts.
  pub record Checked (idx : ℕ) (chain : List AdmissionAuthorityEnvelope)
      (head : AdmissionAuthorityEnvelope) : Type 0 where
    pub reaches : idx ≤ head.version
    pub trusted : (x : AdmissionAuthorityEnvelope) → Member x chain → IsTrusted x
    pub latest : (x : AdmissionAuthorityEnvelope) → Member x chain → x.version ≤ head.version

  check_chain-Checked :
      (root : Bytes) (idx : ℕ) (p head : AdmissionAuthorityEnvelope)
      (chain : List AdmissionAuthorityEnvelope)
      → decode_public_key crypto root_public_key ≡ some root
      → p.version ≡ idx
      → (idx ≡ 0) ⊎ IsTrusted p
      → check_chain crypto library root idx p chain ≡ accept head
      → Checked idx chain head
  unfolding check_chain
  check_chain-Checked root idx p head [] decoded at start h =
      let same : p ≡ head = accept-inj h in
      record {
        reaches = omega (arith, at, ap (λ x. x.version) same);
        trusted = λ x m. elim m [ ];
        latest = λ x m. elim m [ ];
      }
  check_chain-Checked root idx p head (d ∷ chain) decoded at start h =
      elim (Bool-cases (d.version == idx + 1)) [
        | inr gap ↦ absurd (ground (arith, rw (gap, check_chain) at h))
        | inl next ↦ elim (Option-cases (check_link crypto library root p d)) [
          | inr (message, bad) ↦ absurd (ground (arith, rw (next, bad, check_chain) at h))
          | inl fine ↦
              let is : d.version ≡ idx + 1 = ground (arith, next) in
              let good = check_link-IsTrusted root idx p d decoded at start is fine in
              let rest =
                check_chain-Checked root (idx + 1) d head chain decoded is (inr good)
                  (rw (next, fine, check_chain) at h) in
              record {
                reaches = omega (arith, rest.reaches);
                trusted = λ x m. elim m [
                  | inl same ↦ subst IsTrusted (sym same) good
                  | inr later ↦ rest.trusted x later
                ];
                latest = λ x m. elim m [
                  | inl same ↦ omega (arith, rest.reaches, is, ap (λ y. y.version) same)
                  | inr later ↦ rest.latest x later
                ];
              }
        ]
      ]

  -- The authority that is returned is the one in front of the chain, or one of the chain.
  check_chain-Member :
      (root : Bytes) (idx : ℕ) (p head : AdmissionAuthorityEnvelope)
      (chain : List AdmissionAuthorityEnvelope)
      → check_chain crypto library root idx p chain ≡ accept head
      → (head ≡ p) ⊎ Member head chain
  unfolding check_chain
  check_chain-Member root idx p head [] h = inl (sym (accept-inj h))
  check_chain-Member root idx p head (d ∷ chain) h = elim (Bool-cases (d.version == idx + 1)) [
    | inr gap ↦ absurd (ground (arith, rw (gap, check_chain) at h))
    | inl next ↦ elim (Option-cases (check_link crypto library root p d)) [
      | inr (message, bad) ↦ absurd (ground (arith, rw (next, bad, check_chain) at h))
      | inl fine ↦
          inr (check_chain-Member root (idx + 1) d head chain (rw (next, fine, check_chain) at h))
    ]
  ]

  trusted-version : {d : AdmissionAuthorityEnvelope} → IsTrusted d → 1 ≤ d.version
  trusted-version (by_root d key decoded first none_before kind seal) = omega arith
  trusted-version (by_authority p d key before decoded next prev kind seal) = omega arith

  -- An accepted chain leads from the root to each of its authorities, and the authority that is returned is
  -- one of the chain, of the highest version.
  pub verify_chain-Checked :
      (chain : List AdmissionAuthorityEnvelope) (head : AdmissionAuthorityEnvelope)
      → verify_admission_authority_chain crypto library chain root_public_key ≡ accept head
      → Checked 0 chain head × Member head chain
  unfolding verify_admission_authority_chain
  verify_chain-Checked [] head h = absurd (ground arith)
  verify_chain-Checked (d ∷ chain) head h =
      elim (Option-cases (decode_public_key crypto root_public_key)) [
        | inl broken ↦ absurd (ground (arith, rw (broken, verify_admission_authority_chain) at h))
        | inr (root, decoded) ↦
            let chained = rw (decoded, verify_admission_authority_chain) at h in
            let sorted =
              check_chain-Checked root 0 zero_authority head (sort_by_version (d ∷ chain)) decoded
                refl (inl refl) chained in
            let first : Member d (sort_by_version (d ∷ chain)) =
              Member-sort (d ∷ chain) d (inl refl) in
            (
              record {
                reaches = sorted.reaches;
                trusted = λ x m. sorted.trusted x (Member-sort (d ∷ chain) x m);
                latest = λ x m. sorted.latest x (Member-sort (d ∷ chain) x m);
              },
              elim (check_chain-Member root 0 zero_authority head (sort_by_version (d ∷ chain))
                  chained) [
                    | inr found ↦ sort-Member (d ∷ chain) head found
                    | inl nothing ↦ absurd (
                        omega (
                          arith,
                          trusted-version (sorted.trusted d first),
                          sorted.latest d first,
                          ap (λ x. x.version) nothing,
                        ))
                  ],
            )
      ]
