-- ===== src/Traffic/Types.antt =====
-- internal/traffic/types.go and models.go: counters, targets, filters and the rows of the two tables.
-- A time is in Unix seconds; `none` is the zero time. The row number of a record is left out.
use sbox_manager.Common.{
  Bool, List, Option, String, [], has, if◌then◌else◌, is_blank, is_empty, keep, map, negsuc, none,
  not, pos, some, trim_space, ℕ, ℤ, ◌&&◌, ◌*◌, ◌++◌, ◌+◌, ◌-◌, ◌==◌, ◌||◌, ◌∷◌,
}
use sbox_manager.Domain.Defaults.{apply_instance_defaults}
use sbox_manager.Domain.Models.{GlobalConfig, Instance, TrafficConfig}

abbrev pub Time : Type 0
Time = Option ℤ

-- `Time.Unix`.
abbrev pub unix : Time → ℤ
unix none = negsuc 62135596799
unix (some t) = t

pub record Counter : Type 0 where
  pub scope : String
  pub name : String
  pub direction : String
  pub value : ℕ

pub record Target : Type 0 where
  pub instance_name : String
  pub server : String
  pub token : String
  pub scopes : List String

pub record Options : Type 0 where
  pub db_path : String
  pub timezone : String
  pub retention_days : ℤ
  pub daily_min_retention_days : ℤ
  pub monthly_retention_months : ℤ
  pub timeout : ℤ
  pub monthly_retention_override : ℤ

pub record Filter : Type 0 where
  pub instances : List String
  pub scope : String
  pub name : String
  pub limit : ℤ

abbrev pub no_filter : Filter
no_filter = record { instances = []; scope = ""; name = ""; limit = pos 0 }

pub record TimeRange : Type 0 where
  pub start : Time
  pub end : Time

pub record Record : Type 0 where
  pub instance_name : String
  pub server : String
  pub period : String
  pub start_ts : ℤ
  pub end_ts : ℤ
  pub start_time : String
  pub end_time : String
  pub scope : String
  pub name : String
  pub direction : String
  pub bytes : ℕ
  pub reset_detected : Bool
  pub created_at : Time

pub record Baseline : Type 0 where
  pub instance_name : String
  pub scope : String
  pub name : String
  pub direction : String
  pub value : ℕ
  pub updated_at : Time

abbrev pub all_instances_name : String
all_instances_name = "ALL"

abbrev pub valid_scopes : List String
valid_scopes = "user" ∷ "inbound" ∷ "outbound" ∷ []

abbrev pub valid_periods : List String
valid_periods = "current" ∷ "hourly" ∷ "daily" ∷ "monthly" ∷ "yearly" ∷ []

-- `time.Duration(n) * time.Second`, in nanoseconds.
abbrev pub seconds : ℤ → ℤ
seconds (pos n) = pos (n * 1000000000)
seconds (negsuc n) = negsuc ((n + 1) * 1000000000 - 1)

-- The format of the error, if there is one.
unfoldable pub validate_period : String → Option String
validate_period period = if has valid_periods period then none else some "unsupported period %q"

unfoldable pub validate_scope : String → Option String
validate_scope scope =
    if is_blank scope
    then none
    else if has valid_scopes scope
    then none
    else some "unsupported scope %q"

unfoldable pub options_from_global : GlobalConfig → Options
options_from_global global =
    let traffic = global.defaults.traffic in
    record {
      db_path = "";
      timezone = traffic.timezone;
      retention_days = traffic.retention_days;
      daily_min_retention_days = traffic.daily_min_retention_days;
      monthly_retention_months = traffic.monthly_retention_months;
      timeout = seconds traffic.timeout_seconds;
      monthly_retention_override = pos 0;
    }

unfoldable pub apply_traffic_config : Options → TrafficConfig → Options
apply_traffic_config options config = record options {
  timezone = config.timezone;
  retention_days = config.retention_days;
  daily_min_retention_days = config.daily_min_retention_days;
  monthly_retention_months = config.monthly_retention_months;
  timeout = seconds config.timeout_seconds;
}

pub data Selection : Type 0 where
  selected : List Target → Selection
  select_error : String → String → Selection

abbrev pub target_of : Instance → Target
target_of i = record {
  instance_name = i.name;
  server = i.api.listen;
  token = i.api.token;
  scopes = elim i.traffic.scopes [ none ↦ [] | some scopes ↦ scopes ];
}

-- The loop of `SelectTargets` for all instances.
select_all : List Instance → List Target
select_all [] = []
select_all (given ∷ rest) =
    let i = apply_instance_defaults given in
    let later = select_all rest in
    if not i.enabled || not i.traffic.enabled || not i.api.enabled
    then later
    else target_of i ∷ later

-- The same loop for the instances of one name: the first that cannot be read ends it.
select_named : String → List Target → List Instance → Selection
select_named target found [] =
    if is_empty found then select_error "instance %q does not exist" target else selected found
select_named target found (given ∷ rest) =
    let i = apply_instance_defaults given in
    let skip = select_named target found rest in
    let take = select_named target (found ++ target_of i ∷ []) rest in
    if not (i.name == target)
    then skip
    else if not i.traffic.enabled
    then select_error "instance %q does not enable traffic" i.name
    else if not i.api.enabled
    then select_error "instance %q does not enable stats API" i.name
    else take

unfoldable pub select_targets : List Instance → String → Selection
unfolding select_all select_named
select_targets instances target =
    let name = trim_space target in
    if name == ""
    then select_error "--instance NAME|ALL is required" ""
    else if name == all_instances_name
    then selected (select_all instances)
    else select_named name [] instances

unfoldable pub instance_names : List Target → List String
instance_names = map (λ (t : Target). t.instance_name)

-- The test of one round of `FilterCounters`.
abbrev pub passes : Target → Filter → Counter → Bool
passes target filter counter =
    has valid_scopes counter.scope
    && (is_empty target.scopes || has target.scopes counter.scope)
    && (filter.scope == "" || counter.scope == filter.scope)
    && (filter.name == "" || counter.name == filter.name)

unfoldable pub filter_counters : List Counter → Target → Filter → List Counter
filter_counters counters target filter = keep (passes target filter) counters
