-- ===== src/Transport.antt =====
-- include/ldcp/transport.h: the abstract class Transport, as the session uses it. `State` is an
-- object of a derived class; what a virtual method changes is its result.
use ldcp_sdk.Prelude.{◌≡◌, Bool, false, List, [], ◌∷◌, ◌++◌}
use ldcp_sdk.Prelude.Int.{ℤ}
use ldcp_sdk.Error.{ErrorCode, is_no_error}
use ldcp_sdk.Location.{NetworkLocation}

pub record Transport (Value : Type 0) : Type 1 where
  pub State : Type 0
  pub create : NetworkLocation → State
  pub connect : State → ℤ → State × ErrorCode
  pub disconnect : State → State
  pub is_connected : State → Bool
  -- The object has a joinable thread, so that to destroy it terminates the program.
  pub has_thread : State → Bool
  pub transmit_message : State → Value → State
  pub enable_oob : State → NetworkLocation → State × ErrorCode
  -- The messages handed over so far, oldest first.
  pub transmitted : State → List Value
  pub transmitted-transmit_message :
      (s : State) (v : Value) → transmitted (transmit_message s v) ≡ transmitted s ++ (v ∷ [])
  pub is_connected-create : (l : NetworkLocation) → is_connected (create l) ≡ false
  -- A connection attempt that fails closes the socket again; one that succeeds leaves it open.
  pub is_connected-connect :
      (s : State) (timeout : ℤ)
      → is_connected s ≡ false
      → is_connected (connect s timeout).0 ≡ is_no_error (connect s timeout).1
  -- Only transmit_message is given messages.
  pub transmitted-create : (l : NetworkLocation) → transmitted (create l) ≡ []
  pub transmitted-connect :
      (s : State) (timeout : ℤ) → transmitted (connect s timeout).0 ≡ transmitted s
  pub transmitted-enable_oob :
      (s : State) (l : NetworkLocation) → transmitted (enable_oob s l).0 ≡ transmitted s
  -- An object is made without a thread, and has one once it has connected.
  pub has_thread-create : (l : NetworkLocation) → has_thread (create l) ≡ false
  pub has_thread-connect :
      (s : State) (timeout : ℤ)
      → has_thread s ≡ false
      → has_thread (connect s timeout).0 ≡ is_no_error (connect s timeout).1
