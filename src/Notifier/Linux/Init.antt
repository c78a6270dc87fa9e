-- ===== src/Notifier/Linux/Init.antt =====
-- NetworkDeviceNotifierLinux::init (src/device_notifier.cpp): what it makes and frees.
use ldcp_sdk.Prelude.{suc, ◌≡◌, true, false, ◌&&◌, ◌∷◌, none, arith, if◌then◌else◌}
use ldcp_sdk.Notifier.Linux.{Linux, Makes, is_live, init}

-- A notifier that points to nothing, as a new one does.
pub record IsBlank (s : Linux) : Type 0 where
  pub no_client : s.client ≡ none
  pub no_browser : s.service_browser ≡ none
  pub no_poll : s.simple_poll ≡ none

-- From a notifier that points to nothing, init succeeds if and only if all three objects can be
-- made, and keeps them; where it fails, it leaves the objects there were, and frees none twice.
pub init-balanced :
    (s : Linux) (makes : Makes)
    → IsBlank s
    → ((init s makes).1 ≡ (makes.poll && makes.client && makes.browser))
      × ((init s makes).0.live ≡ (
          if makes.poll && makes.client && makes.browser
          then suc (suc s.fresh) ∷ suc s.fresh ∷ s.fresh ∷ s.live
          else s.live))
      × ((init s makes).0.freed_twice ≡ s.freed_twice)
unfolding init
init-balanced s makes b = ground (arith, b.no_client, b.no_browser, b.no_poll)

-- A second init after one that has failed with the browser: where the second fails at once, the
-- client, which was freed by the first and whose pointer is still there, is freed again.
pub init-frees_twice :
    (s : Linux) (makes again : Makes)
    → IsBlank s
    → makes.poll ≡ true
    → makes.client ≡ true
    → makes.browser ≡ false
    → again.poll ≡ false
    → (is_live (suc s.fresh) s.live ≡ false)
    → (init (init s makes).0 again).0.freed_twice ≡ suc s.fresh ∷ s.freed_twice
unfolding init
init-frees_twice s makes again b p c w q fresh =
    ground (arith, b.no_client, b.no_browser, b.no_poll)
