-- ===== src/Desktopcore/Apply/Playlists.antt =====
-- internal/desktopcore/oplog_apply.go: each playlist but the liked one is a register that holds what the latest
-- operation on it wrote.
use ben_desktop.Base.{
  ℕ, ◌≡◌, ◌≢◌, ◌⊎◌, refl, sym, ap, ◌∙◌, inl, inr, Bool, true, false, ◌&&◌, not, String, Option,
  none, some, [], ◌∷◌, arith, is_blank, str_eq, str_eq_self, trim_space, if◌then◌else◌, Bool-cases,
  Option-cases,
}
use ben_desktop.Playback.Items.{first_non_empty}
use ben_desktop.Desktopcore.Oplog.{OplogEntry, Entity, entity_of}
use ben_desktop.Desktopcore.Replica.{ok, ok-inj}
use ben_desktop.Desktopcore.Apply.{
  PlaylistPayload, Playlist, Tables, Host, mutation_time, take_row, is_playlist, revised, removed,
  liked_playlist_id, playlist_row, upsert, update_where, upsert_playlist, delete_playlist,
  deleted_playlist_id, apply_playlist,
}
use ben_desktop.Desktopcore.Apply.Rows.{
  option_or, mapped, take_row-upsert, take_row-upsert_other, take_row-update, take_row-update_other,
}
use ben_desktop.Desktopcore.Apply.Liked.{is_playlist-other}

-- What the latest operation on a playlist decides: not the time of creation, which stays that of the operation
-- that was written first.
pub record View : Type 0 where
  pub name : String
  pub kind : String
  pub created_by : String
  pub updated_at : ℕ

abbrev pub view : Playlist → View
view p = record {
  name = p.name;
  kind = p.kind;
  created_by = p.created_by;
  updated_at = p.updated_at;
}

abbrev pub shown : Playlist → Option ℕ → Option View
shown p none = some (view p)
shown p (some at) = none

-- A playlist that is deleted is not shown.
abbrev pub visible : Option Playlist → Option View
visible none = none
visible (some p) = shown p p.deleted_at

module _ {C : Type 0} (host : Host C) where
  -- The entity is a playlist, and not the liked one of its library.
  unfoldable pub is_tracked : Entity → Bool
  is_tracked k =
      str_eq k.entity_type "playlist"
      && not (str_eq k.entity_id (liked_playlist_id host k.library_id))

  unfoldable pub read_playlist : Tables C → Entity → Option View
  unfolding is_tracked
  read_playlist t k =
      if is_tracked k
      then visible (take_row (is_playlist k.library_id k.entity_id) t.playlists)
      else none

  -- What an operation says that the playlist is from then on.
  unfoldable pub written : OplogEntry → Option View
  written e =
      if str_eq (trim_space e.op_kind) "upsert"
      then elim (host.decode_playlist e.payload_json) [
        | none ↦ none
        | some p ↦ some (view (playlist_row host e e.entity_id p))
      ]
      else none

  unfoldable pub playlist_value : OplogEntry → Option View
  unfolding written is_tracked
  playlist_value e = if is_tracked (entity_of e) then written e else none

  -- The operation is stored trimmed, and if it is one on a playlist its payload names this playlist.
  pub record IsNamed (e : OplogEntry) : Type 0 where
    pub trimmed : trim_space e.entity_type ≡ e.entity_type
    pub upserted :
        (p : PlaylistPayload)
        → e.entity_type ≡ "playlist"
        → host.decode_playlist e.payload_json ≡ some p
        → first_non_empty (p.playlist_id ∷ e.entity_id ∷ []) ≡ e.entity_id
    pub deleted :
        (id : String)
        → e.entity_type ≡ "playlist"
        → deleted_playlist_id host e ≡ some id
        → first_non_empty (id ∷ e.entity_id ∷ []) ≡ e.entity_id

  upsert_playlist-row :
      (e : OplogEntry) (p : PlaylistPayload) (t u : Tables C)
      → first_non_empty (p.playlist_id ∷ e.entity_id ∷ []) ≡ e.entity_id
      → upsert_playlist host e p t ≡ ok u
      → u.playlists
        ≡ upsert
            (is_playlist e.library_id e.entity_id)
            (revised (playlist_row host e e.entity_id p))
            (playlist_row host e e.entity_id p)
            t.playlists
  unfolding upsert_playlist
  upsert_playlist-row e p t u named h =
      elim (Bool-cases (is_blank (first_non_empty (p.playlist_id ∷ e.entity_id ∷ [])))) [
        | inl blank ↦ absurd (ground (arith, rw (blank, upsert_playlist) at h))
        | inr full ↦
            sym (ap (λ x. x.playlists) (ok-inj (rw (full, upsert_playlist) at h)))
            ∙ ap
                (λ id.
                  upsert (is_playlist e.library_id id) (revised (playlist_row host e id p))
                    (playlist_row host e id p) t.playlists)
                named
      ]

  delete_playlist-row :
      (e : OplogEntry) (id : String) (t u : Tables C)
      → first_non_empty (id ∷ e.entity_id ∷ []) ≡ e.entity_id
      → delete_playlist host e id t ≡ ok u
      → u.playlists
        ≡ update_where
            (is_playlist e.library_id e.entity_id)
            (removed (mutation_time host.now e))
            t.playlists
  unfolding delete_playlist
  delete_playlist-row e id t u named h =
      elim (Bool-cases (is_blank (first_non_empty (id ∷ e.entity_id ∷ [])))) [
        | inl blank ↦ absurd (ground (arith, rw (blank, delete_playlist) at h))
        | inr full ↦
            sym (ap (λ x. x.playlists) (ok-inj (rw (full, delete_playlist) at h)))
            ∙ ap
                (λ x.
                  update_where (is_playlist e.library_id x) (removed (mutation_time host.now e))
                    t.playlists)
                named
      ]

  visible-removed : (at : ℕ) (o : Option Playlist) → visible (mapped (removed at) o) ≡ none
  visible-removed at none = refl
  visible-removed at (some p) = refl

  visible-revised :
      (row : Playlist) (o : Option Playlist)
      → row.deleted_at ≡ none
      → visible (some (option_or o row (revised row))) ≡ some (view row)
  visible-revised row none fresh = ap (shown row) fresh
  visible-revised row (some p) fresh = refl

  row_hit :
      (e : OplogEntry) (p : PlaylistPayload)
      → is_playlist e.library_id e.entity_id (playlist_row host e e.entity_id p) ≡ true
  unfolding playlist_row
  row_hit e p = ground (arith, str_eq_self e.library_id, str_eq_self e.entity_id)

  row_live :
      (e : OplogEntry) (p : PlaylistPayload) → (playlist_row host e e.entity_id p).deleted_at ≡ none
  unfolding playlist_row
  row_live e p = refl

  -- A handled operation is an upsert or a delete, and has written the playlist it is about.
  abbrev Written : OplogEntry → Tables C → Tables C → Type 0
  Written e t u =
      ((p : PlaylistPayload) × (str_eq (trim_space e.op_kind) "upsert" ≡ true)
        × (host.decode_playlist e.payload_json ≡ some p)
        × (u.playlists
            ≡ upsert (is_playlist e.library_id e.entity_id)
                (revised (playlist_row host e e.entity_id p)) (playlist_row host e e.entity_id p)
                t.playlists))
      ⊎ ((str_eq (trim_space e.op_kind) "upsert" ≡ false)
          × (u.playlists
              ≡ update_where (is_playlist e.library_id e.entity_id)
                  (removed (mutation_time host.now e)) t.playlists))

  apply_playlist-Written :
      (e : OplogEntry) (t u : Tables C)
      → IsNamed e
      → e.entity_type ≡ "playlist"
      → apply_playlist host e t ≡ ok u
      → Written e t u
  unfolding apply_playlist
  apply_playlist-Written e t u n type h =
      elim (Bool-cases (str_eq (trim_space e.op_kind) "upsert")) [
        | inl put ↦ elim (Option-cases (host.decode_playlist e.payload_json)) [
          | inl broken ↦ absurd (ground (arith, rw (put, broken, apply_playlist) at h))
          | inr (p, decoded) ↦ inl (
            p,
            put,
            decoded,
            upsert_playlist-row e p t u (n.upserted p type decoded)
                (rw (put, decoded, apply_playlist) at h),
          )
        ]
        | inr other ↦ elim (Bool-cases (str_eq (trim_space e.op_kind) "delete")) [
          | inl gone ↦ elim (Option-cases (deleted_playlist_id host e)) [
            | inl broken ↦ absurd (ground (arith, rw (other, gone, broken, apply_playlist) at h))
            | inr (id, decoded) ↦ inr (
              other,
              delete_playlist-row e id t u (n.deleted id type decoded)
                  (rw (other, gone, decoded, apply_playlist) at h),
            )
          ]
          | inr strange ↦ absurd (ground (arith, rw (other, strange, apply_playlist) at h))
        ]
      ]

  -- The playlist that the operation is about.
  pub apply_playlist-about :
      (e : OplogEntry) (t u : Tables C)
      → IsNamed e
      → e.entity_type ≡ "playlist"
      → apply_playlist host e t ≡ ok u
      → visible (take_row (is_playlist e.library_id e.entity_id) u.playlists) ≡ written e
  unfolding written
  apply_playlist-about e t u n type h =
      let hit = is_playlist e.library_id e.entity_id in
      elim (apply_playlist-Written e t u n type h) [
        | inl (p, put, decoded, is) ↦
            let row = playlist_row host e e.entity_id p in
            let named : written e ≡ some (view row) = rw put (rw decoded refl) in
            ap (λ l. visible (take_row hit l)) is
            ∙ ap visible
                (take_row-upsert hit (revised row) row t.playlists (row_hit e p) (λ x. refl))
            ∙ visible-revised row (take_row hit t.playlists) (row_live e p)
            ∙ sym named
        | inr (other, is) ↦
            let at = mutation_time host.now e in
            let named : written e ≡ none = rw other refl in
            ap (λ l. visible (take_row hit l)) is
            ∙ ap visible (take_row-update hit (removed at) t.playlists (λ x. refl))
            ∙ visible-removed at (take_row hit t.playlists)
            ∙ sym named
      ]

  -- Any other one.
  pub apply_playlist-other :
      (e : OplogEntry) (library id : String) (t u : Tables C)
      → IsNamed e
      → e.entity_type ≡ "playlist"
      → (library ≡ e.library_id → id ≢ e.entity_id)
      → apply_playlist host e t ≡ ok u
      → take_row (is_playlist library id) u.playlists
        ≡ take_row (is_playlist library id) t.playlists
  apply_playlist-other e library id t u n type apart h =
      let hit = is_playlist e.library_id e.entity_id in
      let look = is_playlist library id in
      let away = λ (x : Playlist) (found : hit x ≡ true).
        is_playlist-other library id e.library_id e.entity_id x apart found in
      elim (apply_playlist-Written e t u n type h) [
        | inl (p, put, decoded, is) ↦
            let row = playlist_row host e e.entity_id p in
            ap (take_row look) is
            ∙ take_row-upsert_other hit (revised row) look row t.playlists (away row (row_hit e p))
                away (λ x. refl)
        | inr (other, is) ↦
            ap (take_row look) is
            ∙ take_row-update_other hit (removed (mutation_time host.now e)) look t.playlists away
                (λ x. refl)
      ]
