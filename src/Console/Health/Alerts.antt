-- ===== src/Console/Health/Alerts.antt =====
-- What resolving an alert does to what auth/frontend/src/pages/SystemHealthPage.tsx lists.
use vectron.Prelude.{zero, String, ◌≡◌, refl, some, List, [], ◌∷◌, arith, str_eq, if◌then◌else◌}
use vectron.Console.Health.{
  Alert, SystemHealth, HealthPage, only_active, resolve_alert, updated_alerts, answered, call_ended,
  filter_alerts, filtered_alerts, resolves, replies, handle, run,
}

-- The alerts but those with the id.
abbrev pub without_alert : String → List Alert → List Alert
without_alert alert_id [] = []
without_alert alert_id (alert ∷ alerts) =
    let rest = without_alert alert_id alerts in
    if str_eq alert.id alert_id then rest else alert ∷ rest

active_after :
    (alert_id : String) (alerts : List Alert)
    → filter_alerts only_active (updated_alerts alert_id alerts)
      ≡ without_alert alert_id (filter_alerts only_active alerts)
unfolding updated_alerts
active_after alert_id [] = refl
active_after alert_id (alert ∷ alerts) = ground (arith, active_after alert_id alerts)

pub resolved_leaves :
    (p : HealthPage) (health other : SystemHealth) (alert_id : String)
    → p.system_health ≡ some health
    → p.alert_filter ≡ only_active
    → p.calls ≡ []
    → filtered_alerts (run (resolves alert_id ∷ replies zero (answered other) ∷ []) p)
      ≡ without_alert alert_id (filtered_alerts p)
unfolding run handle resolve_alert call_ended filtered_alerts
resolved_leaves p health other alert_id shown filter idle =
    ground (arith, shown, filter, idle, active_after alert_id health.alerts)

-- With nothing in flight and only active alerts listed: when two alerts are resolved before the
-- first answer has come, after both answers the list is the former one without the second alert
-- only.
pub second_resolution :
    (p : HealthPage) (health x y : SystemHealth) (first second : String)
    → p.system_health ≡ some health
    → p.alert_filter ≡ only_active
    → p.calls ≡ []
    → filtered_alerts (
        run
          (resolves first
            ∷ resolves second
            ∷ replies zero (answered x)
            ∷ replies zero (answered y)
            ∷ [])
          p)
      ≡ without_alert second (filtered_alerts p)
unfolding run handle resolve_alert call_ended filtered_alerts
second_resolution p health x y first second shown filter idle =
    ground (arith, shown, filter, idle, active_after second health.alerts)
