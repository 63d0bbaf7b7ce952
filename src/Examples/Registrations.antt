-- ===== src/Examples/Registrations.antt =====
-- Reconciliation runs: a registry in step with its table, and a disabled tool that was removed.
use cyberwithsteve_acop.Base.{◌≡◌, refl, true, false, some, [], ◌∷◌, all}
use cyberwithsteve_acop.Vocabulary.Reasons.{disabled}
use cyberwithsteve_acop.Store.{ToolRegistration}
use cyberwithsteve_acop.Registry.Reconcile.{reconciled, reconcile, registration_fits}
use cyberwithsteve_acop.Registry.Reconcile.Current.{is_current}
use cyberwithsteve_acop.Registry.Reconcile.Outcome.{reconcile_current, stranded-reconcile}
use cyberwithsteve_acop.Examples.{restart}
use cyberwithsteve_acop.Examples.Invocations.{registration}

abbrev older : ToolRegistration
older = record registration { contract_hash = "c0" }

in_step : reconcile (restart ∷ []) true 20 100 (older ∷ []) ≡ reconciled (registration ∷ [])
unfolding reconcile
in_step = refl

reconcile_current_example :
    (all (is_current (restart ∷ [])) (registration ∷ []) ≡ true)
    × (all registration_fits (registration ∷ []) ≡ true)
reconcile_current_example =
    reconcile_current (restart ∷ []) true 20 100 (older ∷ []) (registration ∷ []) in_step

abbrev switched_off : ToolRegistration
switched_off = record registration {
  tool_name = "service.stop";
  lifecycle_state = disabled;
  disabled_at = some 90;
  disabled_by_subject = some "alice";
  disabled_reason = some "unsafe";
}

stranded-reconcile_example : ¬ (
    reconcile (restart ∷ []) false 20 100 (registration ∷ switched_off ∷ [])
    ≡ reconciled (registration ∷ []))
stranded-reconcile_example =
    stranded-reconcile (restart ∷ []) false 20 100 (registration ∷ switched_off ∷ [])
      (registration ∷ []) refl
