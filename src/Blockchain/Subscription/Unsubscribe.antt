-- ===== src/Blockchain/Subscription/Unsubscribe.antt =====
-- blockchain/ethereum_gateway.go, `subscribeFilterLogsReconnect`: what Unsubscribe does.
use hash_router.Common.{◌≡◌, refl, ap, ◌∙◌, arith, ℕ, Bool, false, Option, List, [], ◌∷◌}
use hash_router.Common.Int.{ℤ}
use hash_router.Blockchain.Subscription.{
  Subscription, Event, subscribe_failed, subscribed, read_failed, ended, context_done, unsubscribe,
  log, new_subscription, fail, step, run,
}

-- Unsubscribe left out.
unfoldable pub without_unsubscribe : List Event → List Event
without_unsubscribe [] = []
without_unsubscribe (unsubscribe ∷ es) = without_unsubscribe es
without_unsubscribe (subscribe_failed ∷ es) = subscribe_failed ∷ without_unsubscribe es
without_unsubscribe (subscribed ∷ es) = subscribed ∷ without_unsubscribe es
without_unsubscribe (read_failed ∷ es) = read_failed ∷ without_unsubscribe es
without_unsubscribe (ended ∷ es) = ended ∷ without_unsubscribe es
without_unsubscribe (context_done ∷ es) = context_done ∷ without_unsubscribe es
without_unsubscribe (log x ∷ es) = log x ∷ without_unsubscribe es

module _ (retry : Option (ℕ → ℤ × Bool)) where
  step-sub : (s : Subscription) (e : Event) → (step retry s e).sub ≡ s.sub
  unfolding step fail
  step-sub s e = ground arith

  step-unsubscribe : (s : Subscription) → s.sub ≡ false → step retry s unsubscribe ≡ s
  unfolding step
  step-unsubscribe s h = ground (arith, h)

  run-without_unsubscribe_of_sub :
      (s : Subscription) (es : List Event)
      → s.sub ≡ false
      → run retry s es ≡ run retry s (without_unsubscribe es)
  unfolding run without_unsubscribe
  run-without_unsubscribe_of_sub s [] h = refl
  run-without_unsubscribe_of_sub s (unsubscribe ∷ es) h =
      ap (λ t. run retry t es) (step-unsubscribe s h) ∙ run-without_unsubscribe_of_sub s es h
  run-without_unsubscribe_of_sub s (e ∷ es) h =
      run-without_unsubscribe_of_sub (step retry s e) es (step-sub s e ∙ h)

  -- Unsubscribe has no effect: with its calls left out everything goes on as it does with them.
  pub run-without_unsubscribe :
      (es : List Event)
      → run retry new_subscription es ≡ run retry new_subscription (without_unsubscribe es)
  unfolding new_subscription
  run-without_unsubscribe es = run-without_unsubscribe_of_sub new_subscription es refl
