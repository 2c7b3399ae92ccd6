-- ===== src/Desktopcore/Apply/Liked.antt =====
-- internal/desktopcore/oplog_apply.go: an operation on an item writes to no playlist but the liked one.
use ben_desktop.Base.{
  ℕ, ◌≡◌, ◌≢◌, refl, sym, ap, ◌∙◌, inl, inr, true, false, ◌||◌, ◌&&◌, String, [], ◌∷◌, arith,
  is_blank, str_eq, str_eq_iff, str_eq_self, trim_space, if◌then◌else◌, Bool-cases, Option-cases,
}
use ben_desktop.Playback.Items.{first_non_empty}
use ben_desktop.Desktopcore.Oplog.{OplogEntry}
use ben_desktop.Desktopcore.Replica.{ok, Result-cases, ok-inj}
use ben_desktop.Desktopcore.Apply.{
  PlaylistItemPayload, PlaylistItemDelete, Playlist, Tables, Host, mutation_time, take_row,
  is_playlist, liked_playlist_id, liked_item_id,
}
use ben_desktop.Desktopcore.Apply.Rows.{take_row-upsert_other}
use ben_desktop.Desktopcore.Apply.Items.{
  Place, as_liked, liked_row, is_live, or_text, ensure_liked_playlist, put_item, place_item,
  upsert_item, deleted_item, named_item, delete_item, apply_playlist_item,
}

pub is_playlist-other :
    (library id owner liked : String) (x : Playlist)
    → (library ≡ owner → id ≢ liked)
    → is_playlist owner liked x ≡ true
    → is_playlist library id x ≡ false
is_playlist-other library id owner liked x apart h = elim (Bool-cases (is_playlist library id x)) [
  | inl here ↦
      let l = (str_eq_iff x.library_id library).0 (ground (arith, here)) in
      let o = (str_eq_iff x.library_id owner).0 (ground (arith, h)) in
      let i = (str_eq_iff x.playlist_id id).0 (ground (arith, here)) in
      let k = (str_eq_iff x.playlist_id liked).0 (ground (arith, h)) in
      absurd (apart (sym l ∙ o) (sym i ∙ k))
  | inr other ↦ other
]

module _ {C : Type 0} (host : Host C) (library id : String) where
  -- The playlist is read the same.
  abbrev pub SameRow : Tables C → Tables C → Type 0
  SameRow t u =
      take_row (is_playlist library id) u.playlists ≡ take_row (is_playlist library id) t.playlists

  -- The playlist is not the liked one of its library.
  abbrev pub IsOrdinary : Type 0
  IsOrdinary = id ≢ liked_playlist_id host library

  ensure_liked-SameRow :
      (owner device : String) (now : ℕ) (t u : Tables C)
      → IsOrdinary
      → ensure_liked_playlist host owner device now t ≡ ok u
      → SameRow t u
  unfolding ensure_liked_playlist
  ensure_liked-SameRow owner device now t u ordinary h =
      elim (Bool-cases (is_blank (trim_space owner))) [
        | inl blank ↦ absurd (ground (arith, rw (blank, ensure_liked_playlist) at h))
        | inr named ↦ elim (Bool-cases (is_blank (trim_space device))) [
          | inl blank ↦ absurd (ground (arith, rw (named, blank, ensure_liked_playlist) at h))
          | inr made ↦
              let at_owner = trim_space owner in
              let creator = trim_space device in
              let liked = liked_playlist_id host at_owner in
              let apart = λ (same : library ≡ at_owner) (e : id ≡ liked).
                ordinary (e ∙ ap (liked_playlist_id host) (sym same)) in
              ap (λ x. take_row (is_playlist library id) x.playlists)
                (sym (ok-inj (rw (named, made, ensure_liked_playlist) at h)))
              ∙ take_row-upsert_other (is_playlist at_owner liked) (as_liked creator)
                  (is_playlist library id) (liked_row at_owner liked creator now) t.playlists
                  (is_playlist-other library id at_owner liked
                    (liked_row at_owner liked creator now) apart
                    (ground (arith, str_eq_self at_owner, str_eq_self liked)))
                  (λ x hit. is_playlist-other library id at_owner liked x apart hit) (λ x. refl)
        ]
      ]

  put_item-SameRow :
      (e : OplogEntry) (at : Place) (key : String) (t u : Tables C)
      → put_item host e at key t ≡ ok u
      → SameRow t u
  unfolding put_item
  put_item-SameRow e at key t u h =
      elim (Option-cases
        (take_row (λ p. is_playlist e.library_id at.playlist_id p && is_live p) t.playlists)) [
          | inl gone ↦ absurd (ground (arith, rw (gone, put_item) at h))
          | inr (p, found) ↦
              ap (λ x. take_row (is_playlist library id) x.playlists)
                (sym (ok-inj (rw (found, put_item) at h)))
        ]

  place_item-SameRow :
      (e : OplogEntry) (p : PlaylistItemPayload) (at : Place) (t u : Tables C)
      → IsOrdinary
      → place_item host e p at t ≡ ok u
      → SameRow t u
  unfolding place_item
  place_item-SameRow e p at t u ordinary h =
      let now = mutation_time host.now e in
      let liked = liked_playlist_id host e.library_id in
      let liked_at : Place = record at {
        playlist_id = liked;
        item_id = liked_item_id host liked at.recording_id;
      } in
      elim (Bool-cases (p.liked || str_eq at.playlist_id liked)) [
        | inl is_liked ↦
            elim (Result-cases (ensure_liked_playlist host e.library_id e.device_id now t)) [
              | inl (v, made) ↦
                  put_item-SameRow e liked_at p.position_key v u
                    (rw (is_liked, made, place_item) at h)
                  ∙ ensure_liked-SameRow e.library_id e.device_id now t v ordinary made
              | inr (message, failed) ↦
                  absurd (ground (arith, rw (is_liked, failed, place_item) at h))
            ]
        | inr plain ↦ put_item-SameRow e at p.position_key t u (rw (plain, place_item) at h)
      ]

  upsert_item-SameRow :
      (e : OplogEntry) (p : PlaylistItemPayload) (t u : Tables C)
      → IsOrdinary
      → upsert_item host e p t ≡ ok u
      → SameRow t u
  unfolding upsert_item
  upsert_item-SameRow e p t u ordinary h =
      let item = first_non_empty (p.item_id ∷ e.entity_id ∷ []) in
      let recording = trim_space p.recording_id in
      let at : Place = record {
        playlist_id = first_non_empty (p.playlist_id ∷ liked_playlist_id host e.library_id ∷ []);
        item_id = item;
        recording_id = or_text (host.resolve_recording t.catalog e.library_id recording) recording;
      } in
      elim (Bool-cases (is_blank item || is_blank recording)) [
        | inl blank ↦ absurd (ground (arith, rw (blank, upsert_item) at h))
        | inr named ↦ place_item-SameRow e p at t u ordinary (rw (named, upsert_item) at h)
      ]

  delete_item-SameRow :
      (e : OplogEntry) (p : PlaylistItemDelete) (t u : Tables C)
      → delete_item host e p t ≡ ok u
      → SameRow t u
  unfolding delete_item
  delete_item-SameRow e p t u h =
      let liked = liked_playlist_id host e.library_id in
      let named = trim_space p.playlist_id in
      let playlist = if p.liked || is_blank named then liked else named in
      let given = first_non_empty (p.item_id ∷ e.entity_id ∷ []) in
      let item =
        if str_eq playlist liked
        then named_item host playlist given
            (host.resolve_recording t.catalog e.library_id p.recording_id)
        else given in
      elim (Bool-cases (is_blank (trim_space item))) [
        | inl blank ↦ absurd (ground (arith, rw (blank, delete_item) at h))
        | inr found ↦
            ap (λ x. take_row (is_playlist library id) x.playlists)
              (sym (ok-inj (rw (found, delete_item) at h)))
      ]

  pub apply_item-SameRow :
      (e : OplogEntry) (t u : Tables C)
      → IsOrdinary
      → apply_playlist_item host e t ≡ ok u
      → SameRow t u
  unfolding apply_playlist_item
  apply_item-SameRow e t u ordinary h =
      let kind = trim_space e.op_kind in
      elim (Bool-cases (str_eq kind "upsert" || str_eq kind "move")) [
        | inl put ↦ elim (Option-cases (host.decode_playlist_item e.payload_json)) [
          | inl broken ↦ absurd (ground (arith, rw (put, broken, apply_playlist_item) at h))
          | inr (p, decoded) ↦
              upsert_item-SameRow e p t u ordinary (rw (put, decoded, apply_playlist_item) at h)
        ]
        | inr other ↦ elim (Bool-cases (str_eq kind "delete")) [
          | inl gone ↦ elim (Option-cases (deleted_item host e)) [
            | inl broken ↦
                absurd (ground (arith, rw (other, gone, broken, apply_playlist_item) at h))
            | inr (p, decoded) ↦
                delete_item-SameRow e p t u (rw (other, gone, decoded, apply_playlist_item) at h)
          ]
          | inr strange ↦ absurd (ground (arith, rw (other, strange, apply_playlist_item) at h))
        ]
      ]
