-- ===== src/Desktopcore/Apply/Runs.antt =====
-- internal/desktopcore: runs of the program's engine. The handlers fill the interface of a register with the
-- playlists, at whatever time a device applies an operation.
use ben_desktop.Base.{
  ℕ, ◌≤◌, ◌≡◌, refl, sym, ap, ◌∙◌, ◌&&◌, false, none, some, inl, inr, str_eq, trim_space,
  Bool-cases, Option-cases, String, Option, List, arith, ◌==◌, if◌then◌else◌,
}
use ben_desktop.Desktopcore.Oplog.{
  OplogEntry, CheckpointOplogEntry, Entity, entity_of, is_about, should_apply_latest_mutation,
}
use ben_desktop.Desktopcore.Oplog.Latest.{Stored, IsSameSet}
use ben_desktop.Desktopcore.Replica.{Engine, ok, deliver_all, fresh_replica}
use ben_desktop.Desktopcore.Replica.Register.{Register}
use ben_desktop.Desktopcore.Replica.Clocks.{clock}
use ben_desktop.Desktopcore.Replica.Buffered.{IsApplied}
use ben_desktop.Desktopcore.Replica.Converge.{AreLawful, replicas_converge}
use ben_desktop.Desktopcore.Apply.{
  Tables, Host, PlaylistPayload, liked_playlist_id, mutation_time, playlist_kind, playlist_row,
  deleted_playlist_id,
}
use ben_desktop.Desktopcore.Apply.Items.{apply_oplog_entry}
use ben_desktop.Desktopcore.Apply.Playlists.{
  View, view, is_tracked, read_playlist, written, playlist_value, IsNamed,
}
use ben_desktop.Desktopcore.Apply.Registers.{read-apply_oplog_entry}

-- The handlers at another time.
abbrev pub at_time : {C : Type 0} → Host C → ℕ → Host C
at_time host n = record host { now = n }

module _ {C : Type 0} (host : Host C) where
  at_time-IsNamed : (n : ℕ) (e : OplogEntry) → IsNamed host e → IsNamed (at_time host n) e
  unfolding deleted_playlist_id
  at_time-IsNamed n e named = record {
    trimmed = named.trimmed;
    upserted = named.upserted;
    deleted = named.deleted;
  }

  view-at_time :
      (n : ℕ) (e : OplogEntry) (p : PlaylistPayload)
      → 1 ≤ e.tsns
      → view (playlist_row (at_time host n) e e.entity_id p)
        ≡ view (playlist_row host e e.entity_id p)
  unfolding liked_playlist_id playlist_row playlist_kind mutation_time
  view-at_time n e p timed = let has_time : (e.tsns == 0) ≡ false = ground arith in rw has_time refl

  written-at_time :
      (n : ℕ) (e : OplogEntry) → 1 ≤ e.tsns → written (at_time host n) e ≡ written host e
  unfolding written
  written-at_time n e timed = elim (Bool-cases (str_eq (trim_space e.op_kind) "upsert")) [
    | inr other ↦ rw other refl
    | inl put ↦ elim (Option-cases (host.decode_playlist e.payload_json)) [
      | inl broken ↦ rw put (rw broken refl)
      | inr (p, decoded) ↦ rw put (rw decoded (ap some (view-at_time n e p timed)))
    ]
  ]

  playlist_value-at_time :
      (n : ℕ) (e : OplogEntry)
      → 1 ≤ e.tsns
      → playlist_value (at_time host n) e ≡ playlist_value host e
  unfolding playlist_value is_tracked liked_playlist_id
  playlist_value-at_time n e timed =
      ap (λ v. if is_tracked host (entity_of e) then v else none) (written-at_time n e timed)

  read-at_time :
      (n : ℕ) (t : Tables C) (k : Entity)
      → read_playlist (at_time host n) t k ≡ read_playlist host t k
  unfolding read_playlist is_tracked liked_playlist_id
  read-at_time n t k = refl

  pub read-apply_at_time :
      (n : ℕ) (log : List OplogEntry) (e : OplogEntry) (t u : Tables C) (k : Entity)
      → IsNamed host e × (1 ≤ e.tsns)
      → apply_oplog_entry (at_time host n) log e t ≡ ok u
      → read_playlist host u k ≡ (
          if should_apply_latest_mutation log e && is_about k e
          then playlist_value host e
          else read_playlist host t k)
  read-apply_at_time n log e t u k lawful h =
      let gate = should_apply_latest_mutation log e && is_about k e in
      sym (read-at_time n u k)
      ∙ read-apply_oplog_entry (at_time host n) log e t u k (at_time-IsNamed n e lawful.0) h
      ∙ ap (λ v. if gate then v else read_playlist (at_time host n) t k)
          (playlist_value-at_time n e lawful.1)
      ∙ ap (λ v. if gate then playlist_value host e else v) (read-at_time n t k)

  -- The engine of the program, with `verifyCheckpointOplogEntryTx`, `strings.ToLower` and the time at which a
  -- device applies an operation given: the time may depend on what the device alone has.
  unfoldable pub engine :
      (C → List OplogEntry → OplogEntry → ℕ)
      → (String → String)
      → (Tables C → String → CheckpointOplogEntry → Option String)
      → Engine (Tables C)
  engine time to_lower verify = record {
    to_lower = to_lower;
    verify = verify;
    apply_oplog_entry = λ log e t. apply_oplog_entry (at_time host (time t.catalog log e)) log e t;
  }

  -- The playlists, the liked ones aside, are a register of the engine.
  unfoldable pub playlists :
      (time : C → List OplogEntry → OplogEntry → ℕ) (to_lower : String → String)
      (verify : Tables C → String → CheckpointOplogEntry → Option String)
      → Register (engine time to_lower verify)
  unfolding engine
  playlists time to_lower verify = record {
    Value = Option View;
    read = read_playlist host;
    value = playlist_value host;
    IsLawful = λ e. IsNamed host e × (1 ≤ e.tsns);
    read-apply =
        λ log e t u k lawful h. read-apply_at_time (time t.catalog log e) log e t u k lawful h;
  }

  -- Two devices that show the playlists alike at the start, the liked ones aside, and that have stored the same
  -- operations, whatever was delivered to them, in whatever order and at whatever times, agree on the clock of
  -- each device and on the name, the kind, the creator, the time of update and the deletion of each playlist but
  -- the liked one: if on one of them no operation waits in front of a gap, each operation has a positive time and
  -- is stored with its type trimmed, and the payload of one on a playlist names this playlist.
  pub playlists_converge :
      (time : C → List OplogEntry → OplogEntry → ℕ) (to_lower : String → String)
      (verify : Tables C → String → CheckpointOplogEntry → Option String) (before other : Tables C)
      (ops_a ops_b : List (String × CheckpointOplogEntry))
      → ((k : Entity) → read_playlist host before k ≡ read_playlist host other k)
      → AreLawful (engine time to_lower verify) (playlists time to_lower verify) ops_a
      → AreLawful (engine time to_lower verify) (playlists time to_lower verify) ops_b
      → IsSameSet
          (deliver_all (engine time to_lower verify) (fresh_replica before) ops_a).oplog
          (deliver_all (engine time to_lower verify) (fresh_replica other) ops_b).oplog
      → ((x : OplogEntry)
          → Stored x (deliver_all (engine time to_lower verify) (fresh_replica before) ops_a).oplog
          → IsApplied
              (clock
                (deliver_all (engine time to_lower verify) (fresh_replica before) ops_a).clocks)
              x)
      → ((l d : String)
          → clock
              (deliver_all (engine time to_lower verify) (fresh_replica before) ops_a).clocks
              l
              d
            ≡ clock
                (deliver_all (engine time to_lower verify) (fresh_replica other) ops_b).clocks
                l
                d)
        × ((k : Entity)
            → read_playlist host
                (deliver_all (engine time to_lower verify) (fresh_replica before) ops_a).tables
                k
              ≡ read_playlist host
                  (deliver_all (engine time to_lower verify) (fresh_replica other) ops_b).tables
                  k)
  unfolding playlists
  playlists_converge time to_lower verify =
      replicas_converge (engine time to_lower verify) (playlists time to_lower verify)
