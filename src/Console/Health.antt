-- ===== src/Console/Health.antt =====
-- The page for the health of the system in the web console,
-- auth/frontend/src/pages/SystemHealthPage.tsx, with its types of auth/frontend/src/api-types.ts.
pub mod Alerts
use vectron.Prelude.{
  ℕ, String, Bool, true, false, Option, none, some, List, [], ◌∷◌, ◌++◌, get_elem?, remove_at, ℤ,
  not, str_eq, if◌then◌else◌,
}

pub record Alert : Type 0 where
  pub id : String
  pub level : String
  pub title : String
  pub message : String
  pub timestamp : ℤ
  pub resolved : Bool
  pub source : String

pub record ServiceStatus : Type 0 where
  pub name : String
  pub status : String
  pub endpoint : String
  pub last_check : ℤ
  pub response_time : ℤ
  pub error : Option String

pub record SystemMetrics : Type 0 where
  pub total_vectors : ℤ
  pub total_collections : ℤ
  pub active_workers : ℤ
  pub storage_used : ℤ
  pub memory_used : ℤ
  pub cpu_usage : ℤ
  pub bytes_in : ℤ
  pub bytes_out : ℤ

pub record SystemHealth : Type 0 where
  pub overall_status : String
  pub services : List ServiceStatus
  pub alerts : List Alert
  pub metrics : SystemMetrics

pub data AlertFilter : Type 0 where
  all_alerts : AlertFilter
  only_active : AlertFilter
  only_resolved : AlertFilter

-- The requests; a resolution closes over the health that was shown.
pub data HealthCall : Type 0 where
  get_health : HealthCall
  resolve : String → SystemHealth → HealthCall

pub record HealthPage : Type 0 where
  pub system_health : Option SystemHealth
  pub loading : Bool
  pub error : Option String
  pub auto_refresh : Bool
  pub alert_filter : AlertFilter
  pub calls : List HealthCall

-- `fetchSystemHealth`, up to its `await`.
unfoldable pub fetch_system_health : HealthPage → HealthPage
fetch_system_health p = record p { error = none; calls = p.calls ++ (get_health ∷ []) }

unfoldable pub mounted : HealthPage
unfolding fetch_system_health
mounted = fetch_system_health (record {
  system_health = none;
  loading = true;
  error = none;
  auto_refresh = true;
  alert_filter = all_alerts;
  calls = [];
})

-- `resolveAlert`, up to its `await`.
unfoldable pub resolve_alert : String → HealthPage → HealthPage
resolve_alert alert_id p = elim p.system_health [
  | none ↦ p
  | some health ↦ record p { calls = p.calls ++ (resolve alert_id health ∷ []) }
]

-- `updatedAlerts`
unfoldable pub updated_alerts : String → List Alert → List Alert
updated_alerts alert_id [] = []
updated_alerts alert_id (alert ∷ alerts) =
    (if str_eq alert.id alert_id then record alert { resolved = true } else alert)
    ∷ updated_alerts alert_id alerts

-- The end of a request: `response.data`, or an error.
pub data Reply : Type 0 where
  answered : SystemHealth → Reply
  failed : Reply

unfoldable pub call_ended : HealthCall → Reply → HealthPage → HealthPage
unfolding updated_alerts
call_ended get_health (answered health) p = record p {
  system_health = some health;
  loading = false;
}
call_ended get_health failed p = record p {
  error = some "Failed to fetch system health";
  loading = false;
}
call_ended (resolve alert_id health) (answered other) p = record p {
  system_health = some (record health { alerts = updated_alerts alert_id health.alerts });
}
call_ended (resolve alert_id health) failed p = record p {
  error = some "Failed to resolve alert. Please try again.";
}

abbrev pub passes : AlertFilter → Alert → Bool
passes all_alerts alert = true
passes only_active alert = not alert.resolved
passes only_resolved alert = alert.resolved

abbrev pub filter_alerts : AlertFilter → List Alert → List Alert
filter_alerts f [] = []
filter_alerts f (alert ∷ alerts) =
    let rest = filter_alerts f alerts in if passes f alert then alert ∷ rest else rest

-- `filteredAlerts`
unfoldable pub filtered_alerts : HealthPage → List Alert
filtered_alerts p = elim p.system_health [
  | none ↦ []
  | some health ↦ filter_alerts p.alert_filter health.alerts
]

pub data Event : Type 0 where
  refreshes : Event
  ticks : Event
  toggles : Event
  filters : AlertFilter → Event
  resolves : String → Event
  replies : ℕ → Reply → Event

-- An event: the interval fetches while the page refreshes by itself.
unfoldable pub handle : Event → HealthPage → HealthPage
unfolding fetch_system_health resolve_alert call_ended
handle refreshes p = fetch_system_health p
handle ticks p = if p.auto_refresh then fetch_system_health p else p
handle toggles p = record p { auto_refresh = not p.auto_refresh }
handle (filters f) p = record p { alert_filter = f }
handle (resolves alert_id) p = resolve_alert alert_id p
handle (replies i r) p = elim (get_elem? p.calls i) [
  | none ↦ p
  | some c ↦ call_ended c r (record p { calls = remove_at i p.calls })
]

unfoldable pub run : List Event → HealthPage → HealthPage
unfolding handle
run [] p = p
run (e ∷ es) p = run es (handle e p)
