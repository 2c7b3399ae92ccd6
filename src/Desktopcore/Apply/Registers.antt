-- ===== src/Desktopcore/Apply/Registers.antt =====
-- internal/desktopcore/oplog_apply.go: the handlers leave each playlist but the liked one as the operation says.
use ben_desktop.Base.{
  ◌≡◌, ◌⊎◌, refl, sym, ap, subst, ◌∙◌, inl, inr, Bool, true, false, ◌&&◌, String, none, List, arith,
  str_eq, str_eq_iff, trim_space, if◌then◌else◌, Bool-cases,
}
use ben_desktop.Desktopcore.Oplog.{
  OplogEntry, Entity, entity_of, is_about, should_apply_latest_mutation,
}
use ben_desktop.Desktopcore.Oplog.Gate.{entity-is_about}
use ben_desktop.Desktopcore.Replica.{Result, ok, ok-inj}
use ben_desktop.Desktopcore.Apply.{
  Tables, Host, take_row, is_playlist, liked_playlist_id, apply_library, apply_playlist,
}
use ben_desktop.Desktopcore.Apply.Kept.{
  apply_library-Keeps, apply_preference-Keeps, apply_to_catalog-Keeps,
}
use ben_desktop.Desktopcore.Apply.Liked.{IsOrdinary, SameRow, apply_item-SameRow}
use ben_desktop.Desktopcore.Apply.Items.{
  apply_playlist_item, apply_preference, if_latest, is_catalog_type, apply_oplog_entry,
}
use ben_desktop.Desktopcore.Apply.Playlists.{
  visible, is_tracked, read_playlist, playlist_value, IsNamed, apply_playlist-about,
  apply_playlist-other,
}

not_about :
    (e : OplogEntry) (k : Entity) (gate : Bool)
    → trim_space e.entity_type ≡ e.entity_type
    → k.entity_type ≡ "playlist"
    → str_eq (trim_space e.entity_type) "playlist" ≡ false
    → (gate && is_about k e) ≡ false
not_about e k gate trimmed type other = elim (Bool-cases (gate && is_about k e)) [
  | inl hit ↦
      let same = (str_eq_iff e.entity_type k.entity_type).0 (ground (arith, hit)) in
      absurd (
        ground (
          arith,
          other,
          (str_eq_iff (trim_space e.entity_type) "playlist").1 (trimmed ∙ same ∙ type),
        ))
  | inr miss ↦ miss
]

module _ {C : Type 0} (host : Host C) where
  if_latest-cases :
      (handler : OplogEntry → Tables C → Result (Tables C)) (log : List OplogEntry) (e : OplogEntry)
      (t u : Tables C)
      → if_latest host handler log e t ≡ ok u
      → ((should_apply_latest_mutation log e ≡ true) × (handler e t ≡ ok u))
        ⊎ ((should_apply_latest_mutation log e ≡ false) × (u ≡ t))
  unfolding if_latest
  if_latest-cases handler log e t u h = elim (Bool-cases (should_apply_latest_mutation log e)) [
    | inl pass ↦ inl (pass, rw (pass, if_latest) at h)
    | inr stop ↦ inr (stop, sym (ok-inj (rw (stop, if_latest) at h)))
  ]

  -- A handler behind the test leaves a playlist the same if the handler does.
  gated-SameRow :
      (library id : String) (handler : OplogEntry → Tables C → Result (Tables C))
      (log : List OplogEntry) (e : OplogEntry) (t u : Tables C)
      → (handler e t ≡ ok u → SameRow host library id t u)
      → if_latest host handler log e t ≡ ok u
      → SameRow host library id t u
  gated-SameRow library id handler log e t u f h = elim (if_latest-cases handler log e t u h) [
    | inl (pass, done) ↦ f done
    | inr (stop, same) ↦ ap (λ x. take_row (is_playlist library id) x.playlists) same
  ]

  -- An operation on anything else leaves each ordinary playlist as it was.
  other_type-SameRow :
      (library id : String) (log : List OplogEntry) (e : OplogEntry) (t u : Tables C)
      → IsOrdinary host library id
      → str_eq (trim_space e.entity_type) "playlist" ≡ false
      → apply_oplog_entry host log e t ≡ ok u
      → SameRow host library id t u
  unfolding apply_oplog_entry
  other_type-SameRow library id log e t u ordinary other h =
      let type = trim_space e.entity_type in
      let row = λ (x : Tables C). take_row (is_playlist library id) x.playlists in
      let of_rows =
        λ (keeps : u.playlists ≡ t.playlists). ap (take_row (is_playlist library id)) keeps in
      elim (Bool-cases (str_eq type "library")) [
        | inl here ↦
            gated-SameRow library id (apply_library host) log e t u
              (λ done. of_rows (apply_library-Keeps host e t u done))
              (rw (here, apply_oplog_entry) at h)
        | inr n1 ↦ elim (Bool-cases (str_eq type "scan_roots")) [
          | inl here ↦ ap row (sym (ok-inj (rw (n1, here, apply_oplog_entry) at h)))
          | inr n2 ↦ elim (Bool-cases (str_eq type "playlist_item")) [
            | inl here ↦
                gated-SameRow library id (apply_playlist_item host) log e t u
                  (apply_item-SameRow host library id e t u ordinary)
                  (rw (n1, n2, other, here, apply_oplog_entry) at h)
            | inr n3 ↦ elim (Bool-cases (str_eq type "device_variant_preference")) [
              | inl here ↦
                  gated-SameRow library id (apply_preference host) log e t u
                    (λ done. of_rows (apply_preference-Keeps host e t u done))
                    (rw (n1, n2, other, n3, here, apply_oplog_entry) at h)
              | inr n4 ↦ elim (Bool-cases (is_catalog_type type)) [
                | inl here ↦ of_rows (
                    apply_to_catalog-Keeps host log e t u
                      (rw (n1, n2, other, n3, n4, here, apply_oplog_entry) at h))
                | inr strange ↦
                    absurd
                      (ground (arith, rw (n1, n2, other, n3, n4, strange, apply_oplog_entry) at h))
              ]
            ]
          ]
        ]
      ]

  playlist_type :
      (log : List OplogEntry) (e : OplogEntry) (t u : Tables C)
      → trim_space e.entity_type ≡ "playlist"
      → apply_oplog_entry host log e t ≡ ok u
      → if_latest host (apply_playlist host) log e t ≡ ok u
  unfolding apply_oplog_entry
  playlist_type log e t u type h = rw (type, apply_oplog_entry) at h

  read-other :
      (t u : Tables C) (k : Entity)
      → SameRow host k.library_id k.entity_id t u
      → read_playlist host u k ≡ read_playlist host t k
  unfolding read_playlist
  read-other t u k same = ap (λ o. if is_tracked host k then visible o else none) same

  -- What is not tracked is not read, and no operation has a value for it.
  untracked :
      (e : OplogEntry) (t u : Tables C) (k : Entity) (gate : Bool)
      → is_tracked host k ≡ false
      → read_playlist host u k
        ≡ (if gate && is_about k e then playlist_value host e else read_playlist host t k)
  unfolding read_playlist playlist_value
  untracked e t u k gate off = elim (Bool-cases (gate && is_about k e)) [
    | inl hit ↦
        let same : entity_of e ≡ k = entity-is_about k e (ground (arith, hit)) in
        let off_too : is_tracked host (entity_of e) ≡ false =
          subst (λ x. is_tracked host x ≡ false) (sym same) off in
        rw hit (rw off (rw off_too refl))
    | inr miss ↦ rw miss (rw off refl)
  ]

  tracked-parts :
      (k : Entity)
      → is_tracked host k ≡ true
      → (k.entity_type ≡ "playlist") × IsOrdinary host k.library_id k.entity_id
  unfolding is_tracked
  tracked-parts k on = (
    (str_eq_iff k.entity_type "playlist").0 (ground arith),
    λ same.
        absurd
          (ground (arith, (str_eq_iff k.entity_id (liked_playlist_id host k.library_id)).1 same)),
  )

  -- An operation on a playlist, that has passed the test.
  passed :
      (e : OplogEntry) (t u : Tables C) (k : Entity)
      → IsNamed host e
      → is_tracked host k ≡ true
      → e.entity_type ≡ "playlist"
      → apply_playlist host e t ≡ ok u
      → read_playlist host u k
        ≡ (if is_about k e then playlist_value host e else read_playlist host t k)
  unfolding read_playlist playlist_value
  passed e t u k named on type h = elim (Bool-cases (is_about k e)) [
    | inl about ↦
        let same : entity_of e ≡ k = entity-is_about k e about in
        rw about (
          subst (λ x. is_tracked host x ≡ true → read_playlist host u x ≡ playlist_value host e)
            same (λ tracked. rw tracked (apply_playlist-about host e t u named type h)) on)
    | inr away ↦ rw away (
        read-other t u k (
          apply_playlist-other host e k.library_id k.entity_id t u named type
            (λ l i. absurd (
              ground (
                arith,
                away,
                on,
                (str_eq_iff e.library_id k.library_id).1 (sym l),
                (str_eq_iff e.entity_id k.entity_id).1 (sym i),
                (str_eq_iff e.entity_type k.entity_type).1 (type ∙ sym (tracked-parts k on).0),
              )))
            h))
  ]

  -- An operation that is written leaves the name, the kind, the creator, the time of update and the deletion
  -- of each playlist but the liked one as the operation says, if it is the latest on this playlist, and as they
  -- were otherwise, provided that the type of its entity is stored trimmed and that, if it is one on a playlist,
  -- its payload names this playlist.
  pub read-apply_oplog_entry :
      (log : List OplogEntry) (e : OplogEntry) (t u : Tables C) (k : Entity)
      → IsNamed host e
      → apply_oplog_entry host log e t ≡ ok u
      → read_playlist host u k ≡ (
          if should_apply_latest_mutation log e && is_about k e
          then playlist_value host e
          else read_playlist host t k)
  read-apply_oplog_entry log e t u k named h = elim (Bool-cases (is_tracked host k)) [
    | inr off ↦ untracked e t u k (should_apply_latest_mutation log e) off
    | inl on ↦
        let parts = tracked-parts k on in
        elim (Bool-cases (str_eq (trim_space e.entity_type) "playlist")) [
          | inl here ↦
              let type = (str_eq_iff (trim_space e.entity_type) "playlist").0 here in
              elim (if_latest-cases (apply_playlist host) log e t u
                (playlist_type log e t u type h)) [
                  | inl (pass, done) ↦
                      rw pass (passed e t u k named on (sym named.trimmed ∙ type) done)
                  | inr (stop, same) ↦ rw stop (ap (λ x. read_playlist host x k) same)
                ]
          | inr other ↦
              let apart : (should_apply_latest_mutation log e && is_about k e) ≡ false =
                not_about e k (should_apply_latest_mutation log e) named.trimmed parts.0 other in
              rw apart (
                read-other t u k
                  (other_type-SameRow k.library_id k.entity_id log e t u parts.1 other h))
        ]
  ]
