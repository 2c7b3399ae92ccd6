-- ===== src/Desktopcore/Apply.antt =====
-- internal/desktopcore/oplog_apply.go: how an operation of the log is written to the tables. The tables of the
-- catalog, their handlers and the lookup of a recording are the catalog's, a parameter here.
use Prim.Native.String.{◌++◌}
use ben_desktop.Base.{
  ℕ, Bool, true, false, ◌&&◌, ◌||◌, String, Option, none, some, List, [], ◌∷◌, ◌==◌, is_blank,
  str_eq, trim_space, if◌then◌else◌,
}
use ben_desktop.Playback.Items.{first_non_empty, or_else}
use ben_desktop.Desktopcore.Oplog.{OplogEntry, CheckpointOplogEntry, should_apply_latest_mutation}
use ben_desktop.Desktopcore.Replica.{Result, ok, err, Engine}
pub mod Items
pub mod Rows
pub mod Kept
pub mod Liked
pub mod Playlists
pub mod Registers
pub mod Runs

pub record PlaylistPayload : Type 0 where
  pub playlist_id : String
  pub name : String
  pub kind : String
  pub created_by : String

pub record PlaylistItemPayload : Type 0 where
  pub playlist_id : String
  pub item_id : String
  pub recording_id : String
  pub position_key : String
  pub liked : Bool

pub record PlaylistItemDelete : Type 0 where
  pub playlist_id : String
  pub item_id : String
  pub recording_id : String
  pub liked : Bool

pub record LibraryPayload : Type 0 where
  pub library_id : String
  pub name : String

pub record PreferencePayload : Type 0 where
  pub device_id : String
  pub scope_type : String
  pub cluster_id : String
  pub chosen_variant_id : String
  pub updated_at_ns : ℕ

pub record Library : Type 0 where
  pub library_id : String
  pub name : String
  pub created_at : ℕ

pub record Playlist : Type 0 where
  pub library_id : String
  pub playlist_id : String
  pub name : String
  pub kind : String
  pub created_by : String
  pub created_at : ℕ
  pub updated_at : ℕ
  pub deleted_at : Option ℕ

pub record PlaylistItem : Type 0 where
  pub library_id : String
  pub playlist_id : String
  pub item_id : String
  pub track_variant_id : String
  pub added_at : ℕ
  pub updated_at : ℕ
  pub position_key : String
  pub deleted_at : Option ℕ

pub record DeviceVariantPreference : Type 0 where
  pub library_id : String
  pub device_id : String
  pub scope_type : String
  pub cluster_id : String
  pub chosen_variant_id : String
  pub updated_at : ℕ

pub record Tables (C : Type 0) : Type 0 where
  pub libraries : List Library
  pub playlists : List Playlist
  pub playlist_items : List PlaylistItem
  pub preferences : List DeviceVariantPreference
  pub catalog : C

-- What the handlers take from outside: the clock, `encoding/json`, the digests behind the identifiers, and the
-- catalog with its own handlers.
pub record Host (C : Type 0) : Type 0 where
  pub now : ℕ
  pub decode_library : String → Option LibraryPayload
  pub decode_playlist : String → Option PlaylistPayload
  pub decode_playlist_delete : String → Option String
  pub decode_playlist_item : String → Option PlaylistItemPayload
  pub decode_playlist_item_delete : String → Option PlaylistItemDelete
  pub decode_preference : String → Option PreferencePayload
  -- the first eight bytes of the SHA-256 of a text, in hexadecimal
  pub digest : String → String
  -- `stableNameID("liked_item", …)`: the UUID of a name
  pub liked_item_name : String → String
  -- `strings.SplitN(…, ":", 3)`, where it gives three parts
  pub split_three : String → Option (String × String × String)
  -- `resolvePlaylistLibraryRecordingIDTx`
  pub resolve_recording : C → String → String → Option String
  -- the handlers of source files, optimized assets, device caches and artwork
  pub apply_catalog : List OplogEntry → OplogEntry → C → Result C

-- `oplogMutationTime`
unfoldable pub mutation_time : ℕ → OplogEntry → ℕ
mutation_time now e = if e.tsns == 0 then now else e.tsns

-- `oplogPayloadTime`
unfoldable pub payload_time : ℕ → ℕ → OplogEntry → ℕ
unfolding mutation_time
payload_time now ns e = if ns == 0 then mutation_time now e else ns

-- `INSERT … ON CONFLICT DO UPDATE`: the first row with the key is updated, or the row is added.
unfoldable pub upsert {ℓ} : {A : Type ℓ} → (A → Bool) → (A → A) → A → List A → List A
upsert hit update row [] = row ∷ []
upsert hit update row (x ∷ rows) =
    let rest = upsert hit update row rows in if hit x then update x ∷ rows else x ∷ rest

-- `UPDATE … WHERE`
unfoldable pub update_where {ℓ} : {A : Type ℓ} → (A → Bool) → (A → A) → List A → List A
update_where hit update [] = []
update_where hit update (x ∷ rows) =
    let rest = update_where hit update rows in (if hit x then update x else x) ∷ rest

-- `Take`
unfoldable pub take_row {ℓ} : {A : Type ℓ} → (A → Bool) → List A → Option A
take_row hit [] = none
take_row hit (x ∷ rows) = let rest = take_row hit rows in if hit x then some x else rest

abbrev pub is_playlist : String → String → Playlist → Bool
is_playlist library id p = str_eq p.library_id library && str_eq p.playlist_id id

abbrev pub is_item : String → String → String → PlaylistItem → Bool
is_item library playlist id i =
    str_eq i.library_id library && (str_eq i.playlist_id playlist && str_eq i.item_id id)

-- What an upsert and a delete write to a playlist that exists.
abbrev pub revised : Playlist → Playlist → Playlist
revised row x = record x {
  name = row.name;
  kind = row.kind;
  created_by = row.created_by;
  updated_at = row.updated_at;
  deleted_at = none;
}

abbrev pub removed : ℕ → Playlist → Playlist
removed at x = record x { deleted_at = some at; updated_at = at }

module _ {C : Type 0} (host : Host C) where
  -- `likedPlaylistIDForLibrary`
  unfoldable pub liked_playlist_id : String → String
  liked_playlist_id library = "liked-" ++ host.digest ("liked:" ++ trim_space library)

  -- `likedItemID`
  unfoldable pub liked_item_id : String → String → String
  liked_item_id playlist recording =
      host.liked_item_name (trim_space playlist ++ (":" ++ trim_space recording))

  unfoldable pub write_library : OplogEntry → LibraryPayload → Tables C → Result (Tables C)
  unfolding first_non_empty mutation_time upsert
  write_library e p t =
      let id = first_non_empty (p.library_id ∷ e.entity_id ∷ []) in
      let name = trim_space p.name in
      if is_blank id
      then err "library id is required"
      else ok (record t {
        libraries =
            upsert (λ l. str_eq l.library_id id) (λ l. record l { name = name })
              (record { library_id = id; name = name; created_at = mutation_time host.now e })
              t.libraries;
      })

  -- `applyLibraryOplogEntryTx`, past the test for the latest operation
  unfoldable pub apply_library : OplogEntry → Tables C → Result (Tables C)
  unfolding write_library
  apply_library e t =
      if str_eq (trim_space e.op_kind) "upsert"
      then elim (host.decode_library e.payload_json) [
        | none ↦ err "decode library oplog payload"
        | some p ↦ write_library e p t
      ]
      else err "unsupported library op kind"

  unfoldable pub playlist_kind : OplogEntry → String → String → String
  unfolding liked_playlist_id
  playlist_kind e id kind =
      or_else
        (if is_blank kind && str_eq id (liked_playlist_id e.library_id) then "liked" else kind)
        "normal"

  -- The row of an upsert, where there is none yet; one that exists keeps its time of creation.
  unfoldable pub playlist_row : OplogEntry → String → PlaylistPayload → Playlist
  unfolding playlist_kind first_non_empty mutation_time
  playlist_row e id p = record {
    library_id = e.library_id;
    playlist_id = id;
    name = trim_space p.name;
    kind = playlist_kind e id (trim_space p.kind);
    created_by = first_non_empty (p.created_by ∷ e.device_id ∷ []);
    created_at = mutation_time host.now e;
    updated_at = mutation_time host.now e;
    deleted_at = none;
  }

  unfoldable pub upsert_playlist : OplogEntry → PlaylistPayload → Tables C → Result (Tables C)
  unfolding first_non_empty playlist_row upsert
  upsert_playlist e p t =
      let id = first_non_empty (p.playlist_id ∷ e.entity_id ∷ []) in
      let row = playlist_row e id p in
      if is_blank id
      then err "playlist id is required"
      else ok (record t {
        playlists = upsert (is_playlist e.library_id id) (revised row) row t.playlists;
      })

  unfoldable pub delete_playlist : OplogEntry → String → Tables C → Result (Tables C)
  unfolding first_non_empty mutation_time update_where
  delete_playlist e payload_id t =
      let id = first_non_empty (payload_id ∷ e.entity_id ∷ []) in
      let at = mutation_time host.now e in
      if is_blank id
      then err "playlist id is required"
      else ok (record t {
        playlists = update_where (is_playlist e.library_id id) (removed at) t.playlists;
      })

  -- A delete may come without a payload, which then is the zero value.
  unfoldable pub deleted_playlist_id : OplogEntry → Option String
  deleted_playlist_id e =
      if is_blank (trim_space e.payload_json)
      then some ""
      else host.decode_playlist_delete e.payload_json

  -- `applyPlaylistOplogEntryTx`, past the test for the latest operation
  unfoldable pub apply_playlist : OplogEntry → Tables C → Result (Tables C)
  unfolding upsert_playlist delete_playlist deleted_playlist_id
  apply_playlist e t =
      let kind = trim_space e.op_kind in
      if str_eq kind "upsert"
      then elim (host.decode_playlist e.payload_json) [
        | none ↦ err "decode playlist oplog payload"
        | some p ↦ upsert_playlist e p t
      ]
      else if str_eq kind "delete"
      then elim (deleted_playlist_id e) [
        | none ↦ err "decode playlist delete payload"
        | some id ↦ delete_playlist e id t
      ]
      else err "unsupported playlist op kind"
