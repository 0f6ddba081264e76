-- ===== src/Subserver/Watcher.antt =====
-- internal/subserver/server.go: the watcher of the input directory. A round of its loop sees the
-- directory twice: at the tick, where it takes the hashes of the files, and, if they are others than
-- before or the last reload failed, behind the pause, where it loads the index. The hash of bytes
-- (package crypto/sha256, in hexadecimal digits) is a parameter.
pub mod Fresh
pub mod Synced
use sbox_manager.Common.{
  Bool, List, Option, Outcome, String, [], failure, false, if◌then◌else◌, is_empty, none, not, some,
  success, true, ℤ, ◌&&◌, ◌==◌, ◌>>=◌, ◌∷◌,
}
use sbox_manager.Domain.Manifests.{validate_input_filename}
use sbox_manager.Domain.Models.{SubscriptionInput}
use sbox_manager.Domain.Platform.{Platform}
use sbox_manager.Subscription.Inputs.{Directory, Entry, load_index_from_dir, skipped}
use sbox_manager.Subserver.Requests.{State, mark_reload_error, replace}

-- What the watcher keeps: the state that it shares with the handlers, and the hashes at the last
-- reload that it did, by the names of the files; none where there is no map.
pub record Watch : Type 0 where
  pub state : State
  pub previous : Option (List (String × String))

-- `reflect.DeepEqual` of two maps of hashes. Both have their entries in the order of the names, in
-- which `os.ReadDir` returns them, so equal maps are equal lists.
unfoldable pub same_entries : List (String × String) → List (String × String) → Bool
same_entries [] [] = true
same_entries [] (y ∷ ys) = false
same_entries (x ∷ xs) [] = false
same_entries ((k, h) ∷ xs) ((j, g) ∷ ys) = k == j && h == g && same_entries xs ys

unfoldable pub same_hashes : Option (List (String × String)) → List (String × String) → Bool
same_hashes none current = false
same_hashes (some previous) current = same_entries previous current

module _ {B : Type 0} (hash : B → String) where
  -- The loop of `snapshotInputDir`.
  unfoldable pub hash_entries : List (Entry B) → Outcome (List (String × String))
  hash_entries [] = success []
  hash_entries (e ∷ es) =
      let rest = hash_entries es in
      if skipped e
      then rest
      else if not (is_empty (validate_input_filename "filename" e.name))
      then failure "subscription input filename %s: %w"
      else elim e.is_regular [
        | none ↦ failure "read subscription input file info %s: %w"
        | some regular ↦ if not regular then rest else elim e.bytes [
          | none ↦ failure "read subscription input %s: %w"
          | some b ↦ rest >>= λ later. success ((e.name, hash b) ∷ later)
        ]
      ]

  -- `snapshotInputDir`.
  unfoldable pub snapshot_input_dir : Directory B → Outcome (List (String × String))
  snapshot_input_dir dir = elim dir.entries [
    | none ↦ failure "read subscription input directory %s: %w"
    | some es ↦ hash_entries es
  ]

  -- The beginning of `watchInputs`.
  unfoldable pub start_watch : Directory B → State → Watch
  start_watch dir s = elim (snapshot_input_dir dir) [
    | failure e ↦ record { state = mark_reload_error s e; previous = none }
    | success current ↦ record { state = s; previous = some current }
  ]

  module _ (decode_strict : String → B → Option SubscriptionInput) (platform : Platform) where
    -- The end of a round, where the index is loaded.
    unfoldable pub reload : List (String × String) → ℤ → Directory B → Watch → Watch
    reload current time later w = elim (load_index_from_dir decode_strict platform time later) [
      | failure e ↦ record w { state = mark_reload_error w.state e }
      | success index ↦ record { state = replace w.state index; previous = some current }
    ]

    -- One round of the loop of `watchInputs`: the directory at the tick, and behind the pause the
    -- time and the directory. The end of the loop when its context is cancelled is left out.
    unfoldable pub poll : Directory B → ℤ → Directory B → Watch → Watch
    poll now time later w = elim (snapshot_input_dir now) [
      | failure e ↦ record w { state = mark_reload_error w.state e }
      | success current ↦
          if same_hashes w.previous current && w.state.last_error == ""
          then w
          else reload current time later w
    ]
