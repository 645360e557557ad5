-- ===== src/Shutdown/Closed.antt =====
-- safety_shutdown/handler.py: what is closed after the actions, whichever of them fail.
use aws_remote_mcp.Prelude.{
  String, Bool, true, false, not, ◌&&◌, ◌||◌, [], ◌∷◌, ◌≡◌, List, ◌∙◌, ap, subst, sym, refl,
}
use aws_remote_mcp.Prelude.Result.{⊤, Result, ok, err, is_ok}
use aws_remote_mcp.Json.{Fields}
use aws_remote_mcp.Core.Models.{Stdlib}
use aws_remote_mcp.Prelude.Effect.{◌>>◌}
use aws_remote_mcp.Shutdown.{
  raise_unless_empty, cons_failure, event, Surroundings, actions, attempt_all, close_test_window,
}

-- What each action does if it succeeds, and that the others leave it alone.
pub record IsClosing {W : Type 0} (aws : Surroundings W) (api_id function_name alarm_name : String)
    (disabled stopped deleted : W → Bool) : Type 0 where
  pub api :
      (w : W)
      → (not (is_ok (aws.update_api api_id true w).0) || disabled (aws.update_api api_id true w).1)
        ≡ true
  pub concurrency :
      (w : W)
      → (not (is_ok (aws.put_function_concurrency function_name 0 w).0)
          || stopped (aws.put_function_concurrency function_name 0 w).1)
        ≡ true
  pub alarm :
      (w : W)
      → (not (is_ok (aws.delete_alarms (alarm_name ∷ []) w).0)
          || deleted (aws.delete_alarms (alarm_name ∷ []) w).1)
        ≡ true
  pub concurrency_keeps :
      (w : W) → disabled (aws.put_function_concurrency function_name 0 w).1 ≡ disabled w
  pub alarm_keeps :
      (w : W)
      → (disabled (aws.delete_alarms (alarm_name ∷ []) w).1 ≡ disabled w)
        × (stopped (aws.delete_alarms (alarm_name ∷ []) w).1 ≡ stopped w)
  pub print_keeps :
      (event : Fields) (w : W)
      → (disabled (aws.print event w).1 ≡ disabled w)
        × (stopped (aws.print event w).1 ≡ stopped w)
        × (deleted (aws.print event w).1 ≡ deleted w)
  pub print : (event : Fields) (w : W) → (aws.print event w).0 ≡ ok tt

abbrev is_nil : List String → Bool
is_nil [] = true
is_nil (_ ∷ _) = false

no_failure :
    (f g h : String) (r s t : Result ⊤)
    → is_nil (cons_failure f r (cons_failure g s (cons_failure h t [])))
      ≡ (is_ok r && is_ok s && is_ok t)
no_failure f g h (ok _) (ok _) (ok _) = refl
no_failure f g h (ok _) (ok _) (err _) = refl
no_failure f g h (ok _) (err _) t = refl
no_failure f g h (err _) s t = refl

module _ {W : Type 0} (aws : Surroundings W) where
  -- The end of the function, with a print that does not fail.
  finished-ok :
      (fields : Fields) (failures : List String) (w : W)
      → (aws.print fields w).0 ≡ ok tt
      → is_ok ((aws.print fields >> raise_unless_empty failures) w).0 ≡ is_nil failures
  finished-ok fields [] w e = rw e refl
  finished-ok fields (f ∷ fs) w e = rw e refl

  finished-world :
      (fields : Fields) (failures : List String) (w : W)
      → (aws.print fields w).0 ≡ ok tt
      → ((aws.print fields >> raise_unless_empty failures) w).1 ≡ (aws.print fields w).1
  finished-world fields [] w e = rw e refl
  finished-world fields (f ∷ fs) w e = rw e refl

module _ {W : Type 0} (std : Stdlib) (aws : Surroundings W)
    (api_id function_name alarm_name : String) (disabled stopped deleted : W → Bool)
    (laws : IsClosing aws api_id function_name alarm_name disabled stopped deleted) where
  abbrev after_api : W → W
  after_api w = (aws.update_api api_id true w).1

  abbrev after_concurrency : W → W
  after_concurrency w = (aws.put_function_concurrency function_name 0 (after_api w)).1

  -- Which of the three actions succeed: none is left out because another failed.
  abbrev pub api_ok : W → Bool
  api_ok w = is_ok (aws.update_api api_id true w).0

  abbrev pub concurrency_ok : W → Bool
  concurrency_ok w = is_ok (aws.put_function_concurrency function_name 0 (after_api w)).0

  abbrev pub alarm_ok : W → Bool
  alarm_ok w = is_ok (aws.delete_alarms (alarm_name ∷ []) (after_concurrency w)).0

  -- With clients of which an action that succeeds has its effect and no action undoes the effect of
  -- another, and a print that does not fail: from any world, an action whose call succeeds (each is
  -- called, whether or not the ones before it failed) has its effect at the end, and the function
  -- returns exactly if all three succeeded.
  pub close_test_window-closes :
      (environment : String) (w : W)
      → let o = close_test_window std aws api_id function_name alarm_name environment w in
        (is_ok o.0 ≡ (api_ok w && concurrency_ok w && alarm_ok w))
        × ((not (api_ok w) || disabled o.1) ≡ true)
        × ((not (concurrency_ok w) || stopped o.1) ≡ true)
        × ((not (alarm_ok w) || deleted o.1) ≡ true)
  unfolding close_test_window attempt_all
  close_test_window-closes environment w =
      let failures = (attempt_all (actions std aws api_id function_name alarm_name) w).0 in
      let w' = (aws.delete_alarms (alarm_name ∷ []) (after_concurrency w)).1 in
      let fields = event environment failures in
      let e = laws.print fields w' in
      let same = finished-world aws fields failures w' e in
      (
        finished-ok aws fields failures w' e
            ∙ no_failure "disable_api" "stop_lambda" "delete_traffic_alarm"
                (aws.update_api api_id true w).0
                (aws.put_function_concurrency function_name 0 (after_api w)).0
                (aws.delete_alarms (alarm_name ∷ []) (after_concurrency w)).0,
        subst (λ x. (not (api_ok w) || x) ≡ true)
            (sym (
              ap disabled same
              ∙ (laws.print_keeps fields w').0
              ∙ (laws.alarm_keeps (after_concurrency w)).0
              ∙ laws.concurrency_keeps (after_api w)))
            (laws.api w),
        subst (λ x. (not (concurrency_ok w) || x) ≡ true)
            (sym (
              ap stopped same
              ∙ (laws.print_keeps fields w').1
              ∙ (laws.alarm_keeps (after_concurrency w)).1))
            (laws.concurrency (after_api w)),
        subst (λ x. (not (alarm_ok w) || x) ≡ true)
            (sym (ap deleted same ∙ (laws.print_keeps fields w').2))
            (laws.alarm (after_concurrency w)),
      )
