-- ===== src/Desktopcore/Apply/Items.antt =====
-- internal/desktopcore/oplog_apply.go: the items of playlists, the preferences of devices, and the choice of the
-- handler.
use ben_desktop.Base.{
  ℕ, Bool, true, false, ◌&&◌, ◌||◌, String, Option, none, some, List, [], ◌∷◌, is_blank, str_eq,
  trim_space, if◌then◌else◌,
}
use ben_desktop.Playback.Items.{first_non_empty, or_else}
use ben_desktop.Desktopcore.Oplog.{OplogEntry, should_apply_latest_mutation}
use ben_desktop.Desktopcore.Replica.{Result, ok, err}
use ben_desktop.Desktopcore.Apply.{
  PlaylistItemPayload, PlaylistItemDelete, PreferencePayload, Playlist, DeviceVariantPreference,
  Tables, Host, mutation_time, payload_time, upsert, update_where, take_row, is_playlist, is_item,
  liked_playlist_id, liked_item_id, apply_library, apply_playlist,
}

abbrev pub is_live : Playlist → Bool
is_live p = elim p.deleted_at [ none ↦ true | some at ↦ false ]

-- The item that an operation names: its playlist, its identifier and its recording.
pub record Place : Type 0 where
  pub playlist_id : String
  pub item_id : String
  pub recording_id : String

abbrev pub or_text : Option String → String → String
or_text none d = d
or_text (some s) d = s

-- The liked playlist of a library, where there is none yet, and what is written to one that exists.
abbrev pub liked_row : String → String → String → ℕ → Playlist
liked_row library id creator now = record {
  library_id = library;
  playlist_id = id;
  name = "Liked";
  kind = "liked";
  created_by = creator;
  created_at = now;
  updated_at = now;
  deleted_at = none;
}

abbrev pub as_liked : String → Playlist → Playlist
as_liked creator x = record x {
  name = "Liked";
  kind = "liked";
  created_by = creator;
  deleted_at = none;
}

abbrev pub is_catalog_type : String → Bool
is_catalog_type type =
    str_eq type "source_file"
    || (str_eq type "optimized_asset"
        || (str_eq type "device_asset_cache" || str_eq type "artwork_variant"))

abbrev no_item : PlaylistItemDelete
no_item = record { playlist_id = ""; item_id = ""; recording_id = ""; liked = false }

module _ {C : Type 0} (host : Host C) where
  -- `ensureLikedPlaylistTx`
  unfoldable pub ensure_liked_playlist : String → String → ℕ → Tables C → Result (Tables C)
  unfolding liked_playlist_id upsert
  ensure_liked_playlist library device now t =
      let owner = trim_space library in
      let creator = trim_space device in
      let id = liked_playlist_id host owner in
      if is_blank owner
      then err "library id is required"
      else if is_blank creator
      then err "device id is required"
      else ok (record t {
        playlists =
            upsert (is_playlist owner id) (as_liked creator) (liked_row owner id creator now)
              t.playlists;
      })

  unfoldable pub put_item : OplogEntry → Place → String → Tables C → Result (Tables C)
  unfolding mutation_time upsert take_row
  put_item e at key t =
      let now = mutation_time host.now e in
      elim (take_row (λ p. is_playlist e.library_id at.playlist_id p && is_live p) t.playlists) [
        | none ↦ err "playlist does not exist for playlist item op"
        | some p ↦ ok (record t {
          playlist_items =
              upsert (is_item e.library_id at.playlist_id at.item_id)
                (λ x. record x {
                  track_variant_id = at.recording_id;
                  position_key = trim_space key;
                  updated_at = now;
                  deleted_at = none;
                })
                (record {
                  library_id = e.library_id;
                  playlist_id = at.playlist_id;
                  item_id = at.item_id;
                  track_variant_id = at.recording_id;
                  added_at = now;
                  updated_at = now;
                  position_key = trim_space key;
                  deleted_at = none;
                })
                t.playlist_items;
        })
      ]

  -- An item of the liked playlist is named after its recording, and its playlist is made if it is missing.
  unfoldable pub place_item :
      OplogEntry → PlaylistItemPayload → Place → Tables C → Result (Tables C)
  unfolding ensure_liked_playlist put_item liked_playlist_id liked_item_id mutation_time
  place_item e p at t =
      let liked = liked_playlist_id host e.library_id in
      let liked_at : Place = record at {
        playlist_id = liked;
        item_id = liked_item_id host liked at.recording_id;
      } in
      if p.liked || str_eq at.playlist_id liked
      then elim (ensure_liked_playlist e.library_id e.device_id (mutation_time host.now e) t) [
        | err message ↦ err message
        | ok u ↦ put_item e liked_at p.position_key u
      ]
      else put_item e at p.position_key t

  unfoldable pub upsert_item : OplogEntry → PlaylistItemPayload → Tables C → Result (Tables C)
  unfolding place_item first_non_empty liked_playlist_id
  upsert_item e p t =
      let item = first_non_empty (p.item_id ∷ e.entity_id ∷ []) in
      let recording = trim_space p.recording_id in
      let at : Place = record {
        playlist_id = first_non_empty (p.playlist_id ∷ liked_playlist_id host e.library_id ∷ []);
        item_id = item;
        recording_id = or_text (host.resolve_recording t.catalog e.library_id recording) recording;
      } in
      if is_blank item || is_blank recording
      then err "playlist item id and recording id are required"
      else place_item e p at t

  unfoldable pub deleted_item : OplogEntry → Option PlaylistItemDelete
  deleted_item e =
      if is_blank (trim_space e.payload_json)
      then some no_item
      else host.decode_playlist_item_delete e.payload_json

  unfoldable pub named_item : String → String → Option String → String
  unfolding liked_item_id
  named_item playlist given none = given
  named_item playlist given (some recording) = liked_item_id host playlist recording

  unfoldable pub delete_item : OplogEntry → PlaylistItemDelete → Tables C → Result (Tables C)
  unfolding first_non_empty liked_playlist_id named_item mutation_time update_where
  delete_item e p t =
      let liked = liked_playlist_id host e.library_id in
      let named = trim_space p.playlist_id in
      let playlist = if p.liked || is_blank named then liked else named in
      let given = first_non_empty (p.item_id ∷ e.entity_id ∷ []) in
      let item =
        if str_eq playlist liked
        then named_item playlist given
            (host.resolve_recording t.catalog e.library_id p.recording_id)
        else given in
      let now = mutation_time host.now e in
      if is_blank (trim_space item)
      then err "playlist item id is required"
      else ok (record t {
        playlist_items =
            update_where (is_item e.library_id playlist item)
              (λ x. record x { deleted_at = some now; updated_at = now }) t.playlist_items;
      })

  -- `applyPlaylistItemOplogEntryTx`, past the test for the latest operation
  unfoldable pub apply_playlist_item : OplogEntry → Tables C → Result (Tables C)
  unfolding upsert_item delete_item deleted_item
  apply_playlist_item e t =
      let kind = trim_space e.op_kind in
      if str_eq kind "upsert" || str_eq kind "move"
      then elim (host.decode_playlist_item e.payload_json) [
        | none ↦ err "decode playlist item oplog payload"
        | some p ↦ upsert_item e p t
      ]
      else if str_eq kind "delete"
      then elim (deleted_item e) [
        | none ↦ err "decode playlist item delete payload"
        | some p ↦ delete_item e p t
      ]
      else err "unsupported playlist item op kind"

  -- `deviceVariantPreferenceIdentityForEntry`: what the payload leaves out comes from the identifier.
  unfoldable pub preference_identity : OplogEntry → PreferencePayload → String × String × String
  preference_identity e p =
      let device = trim_space p.device_id in
      let scope = trim_space p.scope_type in
      let cluster = trim_space p.cluster_id in
      elim (host.split_three (trim_space e.entity_id)) [
        | none ↦ (device, scope, cluster)
        | some (a, b, c) ↦ (
          or_else device (trim_space a),
          or_else scope (trim_space b),
          or_else cluster (trim_space c),
        )
      ]

  unfoldable pub put_preference :
      OplogEntry → PreferencePayload → String × String × String → Tables C → Result (Tables C)
  unfolding payload_time upsert
  put_preference e p (device, scope, cluster) t =
      let row : DeviceVariantPreference = record {
        library_id = e.library_id;
        device_id = device;
        scope_type = scope;
        cluster_id = cluster;
        chosen_variant_id = trim_space p.chosen_variant_id;
        updated_at = payload_time host.now p.updated_at_ns e;
      } in
      if is_blank device || (is_blank scope || is_blank cluster)
      then err "device variant preference identity is required"
      else ok (record t {
        preferences =
            upsert
              (λ x.
                str_eq x.library_id e.library_id
                && (str_eq x.device_id device
                    && (str_eq x.scope_type scope && str_eq x.cluster_id cluster)))
              (λ x. record x {
                chosen_variant_id = row.chosen_variant_id;
                updated_at = row.updated_at;
              })
              row t.preferences;
      })

  -- `applyDeviceVariantPreferenceOplogEntryTx`, past the test for the latest operation
  unfoldable pub apply_preference : OplogEntry → Tables C → Result (Tables C)
  unfolding put_preference preference_identity
  apply_preference e t =
      if str_eq (trim_space e.op_kind) "upsert"
      then elim (host.decode_preference e.payload_json) [
        | none ↦ err "decode device variant preference payload"
        | some p ↦ put_preference e p (preference_identity e p) t
      ]
      else err "unsupported device variant preference op kind"

  unfoldable pub apply_to_catalog : List OplogEntry → OplogEntry → Tables C → Result (Tables C)
  apply_to_catalog log e t = elim (host.apply_catalog log e t.catalog) [
    | ok c ↦ ok (record t { catalog = c })
    | err message ↦ err message
  ]

  -- `shouldApplyLatestMutationTx` in front of a handler
  unfoldable pub if_latest :
      (OplogEntry → Tables C → Result (Tables C))
      → List OplogEntry
      → OplogEntry
      → Tables C
      → Result (Tables C)
  unfolding should_apply_latest_mutation
  if_latest handler log e t = if should_apply_latest_mutation log e then handler e t else ok t

  -- `applyOplogEntryTx`
  unfoldable pub apply_oplog_entry : List OplogEntry → OplogEntry → Tables C → Result (Tables C)
  unfolding if_latest apply_library apply_playlist apply_playlist_item apply_preference
      apply_to_catalog
  apply_oplog_entry log e t =
      let type = trim_space e.entity_type in
      if str_eq type "library"
      then if_latest (apply_library host) log e t
      else if str_eq type "scan_roots"
      then ok t
      else if str_eq type "playlist"
      then if_latest (apply_playlist host) log e t
      else if str_eq type "playlist_item"
      then if_latest apply_playlist_item log e t
      else if str_eq type "device_variant_preference"
      then if_latest apply_preference log e t
      else if is_catalog_type type
      then apply_to_catalog log e t
      else err "unsupported entity type"
