-- ===== src/Desktopcore/Apply/Kept.antt =====
-- internal/desktopcore/oplog_apply.go: which handlers leave the playlists as they are.
use ben_desktop.Base.{
  ◌≡◌, sym, ap, inl, inr, ◌||◌, String, List, [], ◌∷◌, arith, is_blank, str_eq, trim_space,
  Bool-cases, Option-cases,
}
use ben_desktop.Playback.Items.{first_non_empty}
use ben_desktop.Desktopcore.Oplog.{OplogEntry}
use ben_desktop.Desktopcore.Replica.{ok, Result-cases, ok-inj}
use ben_desktop.Desktopcore.Apply.{
  LibraryPayload, PreferencePayload, Tables, Host, write_library, apply_library,
}
use ben_desktop.Desktopcore.Apply.Items.{
  preference_identity, put_preference, apply_preference, apply_to_catalog,
}

module _ {C : Type 0} (host : Host C) where
  abbrev pub Keeps : Tables C → Tables C → Type 0
  Keeps t u = u.playlists ≡ t.playlists

  write_library-Keeps :
      (e : OplogEntry) (p : LibraryPayload) (t u : Tables C)
      → write_library host e p t ≡ ok u
      → Keeps t u
  unfolding write_library
  write_library-Keeps e p t u h =
      elim (Bool-cases (is_blank (first_non_empty (p.library_id ∷ e.entity_id ∷ [])))) [
        | inl blank ↦ absurd (ground (arith, rw (blank, write_library) at h))
        | inr named ↦ sym (ap (λ x. x.playlists) (ok-inj (rw (named, write_library) at h)))
      ]

  pub apply_library-Keeps :
      (e : OplogEntry) (t u : Tables C) → apply_library host e t ≡ ok u → Keeps t u
  unfolding apply_library
  apply_library-Keeps e t u h = elim (Bool-cases (str_eq (trim_space e.op_kind) "upsert")) [
    | inl put ↦ elim (Option-cases (host.decode_library e.payload_json)) [
      | inl broken ↦ absurd (ground (arith, rw (put, broken, apply_library) at h))
      | inr (p, decoded) ↦ write_library-Keeps e p t u (rw (put, decoded, apply_library) at h)
    ]
    | inr other ↦ absurd (ground (arith, rw (other, apply_library) at h))
  ]

  put_preference-Keeps :
      (e : OplogEntry) (p : PreferencePayload) (device scope cluster : String) (t u : Tables C)
      → put_preference host e p (device, scope, cluster) t ≡ ok u
      → Keeps t u
  unfolding put_preference
  put_preference-Keeps e p device scope cluster t u h =
      elim (Bool-cases (is_blank device || (is_blank scope || is_blank cluster))) [
        | inl blank ↦ absurd (ground (arith, rw (blank, put_preference) at h))
        | inr named ↦ sym (ap (λ x. x.playlists) (ok-inj (rw (named, put_preference) at h)))
      ]

  pub apply_preference-Keeps :
      (e : OplogEntry) (t u : Tables C) → apply_preference host e t ≡ ok u → Keeps t u
  unfolding apply_preference
  apply_preference-Keeps e t u h = elim (Bool-cases (str_eq (trim_space e.op_kind) "upsert")) [
    | inl put ↦ elim (Option-cases (host.decode_preference e.payload_json)) [
      | inl broken ↦ absurd (ground (arith, rw (put, broken, apply_preference) at h))
      | inr (p, decoded) ↦
          let at = preference_identity host e p in
          put_preference-Keeps e p at.0 at.1 at.2 t u (rw (put, decoded, apply_preference) at h)
    ]
    | inr other ↦ absurd (ground (arith, rw (other, apply_preference) at h))
  ]

  pub apply_to_catalog-Keeps :
      (log : List OplogEntry) (e : OplogEntry) (t u : Tables C)
      → apply_to_catalog host log e t ≡ ok u
      → Keeps t u
  unfolding apply_to_catalog
  apply_to_catalog-Keeps log e t u h = elim (Result-cases (host.apply_catalog log e t.catalog)) [
    | inl (c, done) ↦ sym (ap (λ x. x.playlists) (ok-inj (rw (done, apply_to_catalog) at h)))
    | inr (message, failed) ↦ absurd (ground (arith, rw (failed, apply_to_catalog) at h))
  ]
