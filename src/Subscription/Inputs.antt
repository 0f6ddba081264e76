-- ===== src/Subscription/Inputs.antt =====
-- internal/subscription/index.go: the reading of the input directory. A directory is what
-- `os.ReadDir` returns of it, in the order of the names, each name once; an entry has what `Info` and
-- `os.ReadFile` return of it. `B` is the type of byte strings. The strict decoding of bytes in a format
-- (packages yaml and encoding/json) is a parameter; none where it fails.
use sbox_manager.Common.{
  Bool, List, Option, Outcome, String, [], contains, failure, has, has_prefix, if◌then◌else◌,
  is_empty, map, none, not, some, sort_stable, success, text_lt, traverse, ℤ, ◌==◌, ◌>>=◌, ◌||◌,
  ◌∷◌,
}
use sbox_manager.Domain.Manifests.{validate_input_filename}
use sbox_manager.Domain.Merge.{validate_subscription_input}
use sbox_manager.Domain.Models.{SubscriptionInput}
use sbox_manager.Domain.Platform.{Platform}
use sbox_manager.Std.Cut.{to_lower}
use sbox_manager.Std.FilePaths.{ext}
use sbox_manager.Subscription.Index.{Index, build_index_from_inputs}

pub record Entry (B : Type 0) : Type 0 where
  pub name : String
  pub is_dir : Bool
  -- Whether the file is regular; none where `Info` fails.
  pub is_regular : Option Bool
  pub bytes : Option B

pub record Directory (B : Type 0) : Type 0 where
  -- None where the directory cannot be read.
  pub entries : Option (List (Entry B))

-- `InputFile`; its bytes, which only bundles use, are left out.
pub record InputFile : Type 0 where
  pub name : String
  pub input : SubscriptionInput

-- `IsInputFileName`.
unfoldable pub is_input_file_name : String → Bool
is_input_file_name name = has (".yaml" ∷ ".yml" ∷ ".json" ∷ []) (to_lower (ext name))

-- `strings.HasSuffix`.
unfoldable pub has_suffix : String → String → Bool
has_suffix String.[] suffix = suffix == ""
has_suffix (String.◌∷◌ c s) suffix = String.◌∷◌ c s == suffix || has_suffix s suffix

-- `ShouldIgnoreInputName`.
unfoldable pub should_ignore_input_name : String → Bool
should_ignore_input_name name =
    let lower = to_lower name in
    name == ""
    || has_prefix name "."
    || has_suffix name "~"
    || contains lower ".tmp"
    || contains lower ".swp"
    || contains lower ".draft"

-- `formatForInputName`.
unfoldable pub format_for_input_name : String → Outcome String
format_for_input_name name =
    let extension = to_lower (ext name) in
    if extension == ".yaml"
    then success "yaml"
    else if extension == ".yml"
    then success "yml"
    else if extension == ".json"
    then success "json"
    else failure "unsupported subscription input extension"

-- The entries that a loop over a directory looks at: no directories, and no other names.
abbrev pub skipped : {B : Type 0} → Entry B → Bool
skipped e = e.is_dir || should_ignore_input_name e.name || not (is_input_file_name e.name)

module _ {B : Type 0} where
  -- The first loop of `LoadInputsFromDir`: the regular input files.
  unfoldable pub input_entries : List (Entry B) → Outcome (List (Entry B))
  input_entries [] = success []
  input_entries (e ∷ es) =
      let rest = input_entries es in
      if skipped e
      then rest
      else if not (is_empty (validate_input_filename "filename" e.name))
      then failure "subscription input filename %s: %w"
      else elim e.is_regular [
        | none ↦ failure "read subscription input file info %s: %w"
        | some regular ↦ if not regular then rest else (rest >>= λ later. success (e ∷ later))
      ]

  abbrev pub entry_before : Entry B → Entry B → Bool
  entry_before a b = text_lt a.name b.name

  module _ (decode_strict : String → B → Option SubscriptionInput) (platform : Platform) where
    -- `DecodeInput`.
    unfoldable pub decode_input : String → B → Outcome SubscriptionInput
    decode_input name b = format_for_input_name name >>= λ format. elim (decode_strict format b) [
      | none ↦ failure "SubscriptionInput: %w"
      | some input ↦
          if is_empty (validate_subscription_input platform input)
          then success input
          else failure "validation failed"
    ]

    -- One round of the second loop of `LoadInputsFromDir`.
    unfoldable pub read_input : Entry B → Outcome InputFile
    read_input e = elim e.bytes [
      | none ↦ failure "read subscription input %s: %w"
      | some b ↦ elim (decode_input e.name b) [
        | failure m ↦ failure "subscription input %s: %w"
        | success input ↦ success (record { name = e.name; input = input })
      ]
    ]

    -- `LoadInputsFromDir`.
    unfoldable pub load_inputs_from_dir : Directory B → Outcome (List InputFile)
    load_inputs_from_dir dir = elim dir.entries [
      | none ↦ failure "read subscription input directory %s: %w"
      | some es ↦ input_entries es >>= λ found. traverse read_input (sort_stable entry_before found)
    ]

    -- `LoadIndexFromDir` with `BuildIndex`, at a time.
    unfoldable pub load_index_from_dir : ℤ → Directory B → Outcome Index
    load_index_from_dir now dir = load_inputs_from_dir dir >>= λ files.
        build_index_from_inputs platform now (map (λ (f : InputFile). f.input) files)
