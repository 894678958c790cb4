-- ===== src/Migration/Generated/Written.antt =====
-- What `write_generated` leaves on the disk.
use toasty_mgr.Prelude.{
  ◌≡◌, ◌≢◌, refl, false, Option, none, some, List, [], ◌∷◌, ◌++◌, if◌then◌else◌, Text,
}
use toasty_mgr.Prelude.Action.{◌>>◌}
use toasty_mgr.Migration.Types.{FilePath, HistoryEntry}
use toasty_mgr.Migration.Naming.{normalize_sql}
use toasty_mgr.Migration.Generated.{
  Folder, migrations, rollbacks, snapshots, history, Slot, file, temp, slot_path, Tools,
  write_temps, move_temp, move_temps,
}
use toasty_mgr.Migration.Generated.Places.{slot_eq, slot_path-slot_eq}
use toasty_mgr.Migration.Generated.Disk.{Ends, Ends-bind, Ends-post, IsDisk}
use toasty_mgr.Migration.Generated.Steps.{
  put, moved, Keeps, Unwritten, Holds, IsFresh, write-step, move-step, apart,
}

module _ {Fs Schema : Type 0} (t : Tools Fs Schema) (read : Fs → FilePath → Option Text)
    (law : IsDisk t read) (root : FilePath) (stem : Text) (start : Fs) where
  abbrev pub path : Slot → FilePath
  path = slot_path root stem

  abbrev pub Old : Fs → Type 0
  Old = Unwritten t read law root stem start

  abbrev pub Seen : (Slot → Option Text) → Fs → Type 0
  Seen = Holds t read law root stem start

  -- The files are in place, the history is the new one, and every other file is as it was.
  abbrev pub Written : Text → Text → Text → Text → Fs → Type 0
  Written sql rollback_sql snapshot entries fs =
      (read fs (path (file migrations)) ≡ some sql)
      × (read fs (path (file rollbacks)) ≡ some rollback_sql)
      × (read fs (path (file snapshots)) ≡ some snapshot)
      × (read fs (path (file history)) ≡ some entries)
      × Keeps t read law root stem start fs

  -- The slots before anything is written.
  abbrev pub empty_view : Slot → Option Text
  empty_view s = if slot_eq s (file history) then read start (path (file history)) else none

  abbrev pub temps_view : Text → Text → Text → Text → Slot → Option Text
  temps_view a b c d = put t read law root stem start (temp history) (some d) (
      put t read law root stem start (temp snapshots) (some c) (
        put t read law root stem start (temp rollbacks) (some b)
          (put t read law root stem start (temp migrations) (some a) empty_view)))

  module _ (fresh : IsFresh t read law root stem start) where
    step :
        (view : Slot → Option Text) (s : Slot) (text : Text) (fs : Fs)
        → slot_eq s (file history) ≡ false
        → view (file history) ≡ read start (path (file history))
        → Seen view fs
        → Ends
            (λ _ fs'. Seen (put t read law root stem start s (some text) view) fs')
            Old
            (t.write (path s) text fs)
    step view s text fs h old holds =
        write-step t read law root stem start fresh view s text fs (t.write (path s) text fs) h old
          holds (law.write_law (path s) text fs)

    pub write_temps-Ends :
        (sql rollback_sql : Text) (snapshot : Schema) (entries : List HistoryEntry) (fs : Fs)
        → Seen empty_view fs
        → Ends
            (λ _ fs'.
              Seen
                (temps_view
                  (normalize_sql sql ++ 10 ∷ [])
                  (normalize_sql rollback_sql ++ 10 ∷ [])
                  (t.snapshot_text snapshot)
                  (t.history_text entries))
                fs')
            Old
            (write_temps t root stem sql rollback_sql snapshot entries fs)
    unfolding write_temps
    write_temps-Ends sql rollback_sql snapshot entries fs h =
        let a = normalize_sql sql ++ 10 ∷ [] in
        let b = normalize_sql rollback_sql ++ 10 ∷ [] in
        let c = t.snapshot_text snapshot in
        let d = t.history_text entries in
        Ends-bind _ _ Old
          (λ _.
            t.write (path (temp rollbacks)) b
            >> (t.write (path (temp snapshots)) c >> t.write (path (temp history)) d))
          (t.write (path (temp migrations)) a fs)
          (step empty_view (temp migrations) a fs refl refl h)
          (λ _ fs h.
            Ends-bind _ _ Old
              (λ _. t.write (path (temp snapshots)) c >> t.write (path (temp history)) d)
              (t.write (path (temp rollbacks)) b fs) (step _ (temp rollbacks) b fs refl refl h)
              (λ _ fs h.
                Ends-bind _ _ Old (λ _. t.write (path (temp history)) d)
                  (t.write (path (temp snapshots)) c fs) (step _ (temp snapshots) c fs refl refl h)
                  (λ _ fs h. step _ (temp history) d fs refl refl h)))

    shift :
        (view : Slot → Option Text) (f : Folder) (fs : Fs)
        → ((q : FilePath) (x : Text)
            → q ≢ path (file history)
            → read start q ≡ some x
            → q ≢ path (file f))
        → view (file history) ≡ read start (path (file history))
        → Seen view fs
        → Ends
            (λ _ fs'. Seen (moved t read law root stem start f view) fs')
            Old
            (move_temp t root stem f fs)
    shift view f fs off old holds =
        move-step t read law root stem start fresh view f fs (move_temp t root stem f fs) off old
          holds
          (law.rename_law (path (temp f)) (path (file f)) fs
            (slot_path-slot_eq root stem (temp f) (file f) refl))

    pub move_temps-Ends :
        (a b c d : Text) (fs : Fs)
        → Seen (temps_view a b c d) fs
        → Ends (λ _ fs'. Written a b c d fs') Old (move_temps t root stem fs)
    unfolding move_temps
    move_temps-Ends a b c d fs h =
        let new =
          λ (f : Folder) (e : slot_eq (file f) (file history) ≡ false) (q : FilePath) (x : Text)
              (away : q ≢ path (file history)) (content : read start q ≡ some x).
            apart t read law root stem start fresh (file f) q x e content in
        Ends-bind _ (λ _ fs'. Written a b c d fs') Old
          (λ _.
            move_temp t root stem rollbacks
            >> (move_temp t root stem snapshots >> move_temp t root stem history))
          (move_temp t root stem migrations fs) (shift _ migrations fs (new migrations refl) refl h)
          (λ _ fs h.
            Ends-bind _ (λ _ fs'. Written a b c d fs') Old
              (λ _. move_temp t root stem snapshots >> move_temp t root stem history)
              (move_temp t root stem rollbacks fs)
              (shift _ rollbacks fs (new rollbacks refl) refl h)
              (λ _ fs h.
                Ends-bind _ (λ _ fs'. Written a b c d fs') Old (λ _. move_temp t root stem history)
                  (move_temp t root stem snapshots fs)
                  (shift _ snapshots fs (new snapshots refl) refl h)
                  (λ _ fs h.
                    Ends-post _ (λ _ fs'. Written a b c d fs') Old
                      (λ _ _ h. (
                        h.0 (file migrations),
                        h.0 (file rollbacks),
                        h.0 (file snapshots),
                        h.0 (file history),
                        h.1,
                      ))
                      (move_temp t root stem history fs)
                      (shift _ history fs (λ q x away content. away) refl h))))
