-- ===== src/Subserver/Watcher/Fresh.antt =====
-- internal/subserver/server.go: the watcher keeps an index, and gets to that of the directory.
use mathlib.Core.Path.{subst}
use sbox_manager.Common.{
  Bool-cases, List, Option, Option-cases, Outcome-cases, String, [], and-true, eq_iff, failure,
  false, inl, inr, refl, some, success, sym, true, ℤ, ◌&&◌, ◌==◌, ◌∙◌, ◌∷◌, ◌≡◌, ◌⊎◌,
}
use sbox_manager.Domain.Models.{SubscriptionInput}
use sbox_manager.Domain.Platform.{Platform}
use sbox_manager.Subscription.Index.{Index}
use sbox_manager.Subscription.Inputs.{Directory, load_index_from_dir}
use sbox_manager.Subserver.Requests.{State, mark_reload_error, replace}
use sbox_manager.Subserver.Watcher.{
  Watch, poll, reload, same_hashes, snapshot_input_dir, start_watch,
}
use sbox_manager.Subserver.Watcher.Synced.{
  IsNamed, hash_entries-IsNamed, load_index_from_dir-IsNamed, same_hashes→eq,
  snapshot_input_dir-load_inputs_from_dir,
}

some_injective : {A : Type 0} {a b : A} → some a ≡ some b → a ≡ b
some_injective h = cc

state_eq :
    (s : State) {index : Option Index}
    → s.index ≡ index
    → s.last_error ≡ ""
    → s ≡ record { index = index; last_error = "" }
state_eq s e f = rw (← e, ← f) refl

module _ {B : Type 0} (hash : B → String) (decode_strict : String → B → Option SubscriptionInput)
    (platform : Platform) where
  -- The index is what a directory with the hashes kept has given at some time, unless a reload has
  -- failed.
  unfoldable pub Synced : Watch → Type 0
  Synced w =
      (w.state.last_error == "") ≡ true
      → (dir : Directory B) × (hashes : List (String × String)) × (time : ℤ) × (index : Index)
        × (snapshot_input_dir hash dir ≡ success hashes)
        × (w.previous ≡ some hashes)
        × (load_index_from_dir decode_strict platform time dir ≡ success index)
        × (w.state.index ≡ some index)

  -- Rounds during each of which the directory stays as it is; between them it may change.
  unfoldable pub quiet_rounds : List (Directory B × ℤ) → Watch → Watch
  quiet_rounds [] w = w
  quiet_rounds ((dir, time) ∷ rounds) w =
      quiet_rounds rounds (poll hash decode_strict platform dir time dir w)

  marked-Synced :
      (w : Watch) (e : String)
      → (e == "") ≡ false
      → Synced (record w { state = mark_reload_error w.state e })
  unfolding mark_reload_error Synced
  marked-Synced w e named h = let bad = h in cc

  snapshot-named :
      (dir : Directory B) (e : String) → snapshot_input_dir hash dir ≡ failure e → (e == "") ≡ false
  unfolding snapshot_input_dir
  snapshot-named dir e h = elim (Option-cases dir.entries) [
    | inl none' ↦ subst IsNamed (rw (none', snapshot_input_dir) at h) refl
    | inr (es, some') ↦
        subst IsNamed (rw (some', snapshot_input_dir) at h) (hash_entries-IsNamed hash es)
  ]

  reload-Synced :
      (dir : Directory B) (time : ℤ) (w : Watch) (current : List (String × String))
      → snapshot_input_dir hash dir ≡ success current
      → Synced (reload hash decode_strict platform current time dir w)
  unfolding reload mark_reload_error replace Synced
  reload-Synced dir time w current seen =
      elim (Outcome-cases (load_index_from_dir decode_strict platform time dir)) [
        | inl (index, loaded) ↦
            rw (loaded, reload) (λ h. (dir, current, time, index, seen, refl, loaded, refl))
        | inr (e, failed) ↦
            rw (failed, reload)
              (marked-Synced w e (
                subst IsNamed failed (load_index_from_dir-IsNamed decode_strict platform time dir)))
      ]

  poll-Synced :
      (dir : Directory B) (time : ℤ) (w : Watch)
      → Synced w
      → Synced (poll hash decode_strict platform dir time dir w)
  unfolding poll mark_reload_error
  poll-Synced dir time w synced = elim (Outcome-cases (snapshot_input_dir hash dir)) [
    | inr (e, failed) ↦ rw (failed, poll) (marked-Synced w e (snapshot-named dir e failed))
    | inl (current, seen) ↦
        elim (Bool-cases (same_hashes w.previous current && w.state.last_error == "")) [
          | inl same ↦ rw (seen, same, poll) synced
          | inr other ↦ rw (seen, other, poll) (reload-Synced dir time w current seen)
        ]
  ]

  quiet_rounds-Synced :
      (rounds : List (Directory B × ℤ)) (w : Watch) → Synced w → Synced (quiet_rounds rounds w)
  unfolding quiet_rounds
  quiet_rounds-Synced [] w synced = synced
  quiet_rounds-Synced ((dir, time) ∷ rounds) w synced =
      quiet_rounds-Synced rounds (poll hash decode_strict platform dir time dir w)
        (poll-Synced dir time w synced)

  start_watch-Synced :
      (dir : Directory B) (time : ℤ) (index : Index)
      → load_index_from_dir decode_strict platform time dir ≡ success index
      → Synced (start_watch hash dir (record { index = some index; last_error = "" }))
  unfolding start_watch mark_reload_error Synced
  start_watch-Synced dir time index loaded = elim (Outcome-cases (snapshot_input_dir hash dir)) [
    | inl (hashes, seen) ↦
        rw (seen, start_watch) (λ h. (dir, hashes, time, index, seen, refl, loaded, refl))
    | inr (e, failed) ↦
        rw (failed, start_watch)
          (λ h. absurd (let bad = rw (snapshot-named dir e failed) at h in cc))
  ]

  -- The state has the index that the directory gives at some time, and no error.
  abbrev pub IsCurrent : Directory B → State → Type 0
  IsCurrent dir s =
      (time : ℤ) × (index : Index) × (load_index_from_dir decode_strict platform time dir
        ≡ success index)
      × (s ≡ record { index = some index; last_error = "" })

  module _ (collision_free : (a b : B) → hash a ≡ hash b → a ≡ b) where
    poll-IsCurrent :
        (dir : Directory B) (time : ℤ) (w : Watch) (current : List (String × String))
        (index : Index)
        → Synced w
        → snapshot_input_dir hash dir ≡ success current
        → load_index_from_dir decode_strict platform time dir ≡ success index
        → IsCurrent dir (poll hash decode_strict platform dir time dir w).state
    unfolding poll reload replace Synced load_index_from_dir
    poll-IsCurrent dir time w current index synced seen loaded =
        elim (Bool-cases (same_hashes w.previous current && w.state.last_error == "")) [
          | inr other ↦ (time, index, loaded, rw (seen, other, poll) (rw (loaded, reload) refl))
          | inl same ↦
              let (equal, calm) = and-true (same_hashes w.previous current) _ same in
              let (dir', hashes, then', index', seen', kept, loaded', served) = synced calm in
              let agree = some_injective (sym kept ∙ same_hashes→eq w.previous current equal) in
              let inputs =
                snapshot_input_dir-load_inputs_from_dir hash collision_free decode_strict platform
                  dir' dir current (rw agree at seen') seen in
              (
                then',
                index',
                rw inputs at loaded',
                rw (seen, same, poll)
                    (state_eq w.state served ((eq_iff w.state.last_error "").0 calm)),
              )
        ]

    -- Suppose that the server loads its index and its watcher takes the first hashes of one and the
    -- same directory, that the directory does not change during a round, and that the hash has no
    -- collisions. Then after any such rounds, failing ones and changes between rounds included, one
    -- round at a directory whose inputs can be read and indexed leaves a state without an error and
    -- with an index that this directory gives.
    pub quiet_rounds-IsCurrent :
        (first : Directory B) (started time : ℤ) (old index : Index)
        (rounds : List (Directory B × ℤ)) (dir : Directory B) (current : List (String × String))
        → load_index_from_dir decode_strict platform started first ≡ success old
        → snapshot_input_dir hash dir ≡ success current
        → load_index_from_dir decode_strict platform time dir ≡ success index
        → IsCurrent dir
            (poll hash decode_strict platform dir time dir (
              quiet_rounds rounds
                (start_watch hash first (record { index = some old; last_error = "" })))).state
    quiet_rounds-IsCurrent first started time old index rounds dir current loaded seen =
        poll-IsCurrent dir time _ current index
          (quiet_rounds-Synced rounds _ (start_watch-Synced first started old loaded)) seen

-- A round keeps the index, or sets the one that the directory behind the pause has.
pub poll-keeps_index :
    {B : Type 0} (hash : B → String) (decode_strict : String → B → Option SubscriptionInput)
    (platform : Platform) (now later : Directory B) (time : ℤ) (w : Watch)
    → let w' = poll hash decode_strict platform now time later w in
      (w'.state.index ≡ w.state.index)
      ⊎ ((index : Index) × (load_index_from_dir decode_strict platform time later ≡ success index)
          × (w'.state.index ≡ some index)
          × (w'.state.last_error ≡ ""))
unfolding poll reload mark_reload_error replace
poll-keeps_index hash decode_strict platform now later time w =
    elim (Outcome-cases (snapshot_input_dir hash now)) [
      | inr (e, failed) ↦ rw (failed, poll) (inl refl)
      | inl (current, seen) ↦
          elim (Bool-cases (same_hashes w.previous current && w.state.last_error == "")) [
            | inl same ↦ rw (seen, same, poll) (inl refl)
            | inr other ↦
                elim (Outcome-cases (load_index_from_dir decode_strict platform time later)) [
                  | inl (index, loaded) ↦
                      rw (seen, other, poll) (rw (loaded, reload) (inr (index, refl, refl, refl)))
                  | inr (e, failed) ↦ rw (seen, other, poll) (rw (failed, reload) (inl refl))
                ]
          ]
    ]
