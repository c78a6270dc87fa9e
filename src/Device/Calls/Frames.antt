-- ===== src/Device/Calls/Frames.antt =====
-- What readScanFrame and readScanBlock (src/device.cpp) call on the session (src/session.cpp).
use mathlib.Core.Option.{some-injective}
use ldcp_sdk.Prelude.{
  ℕ, zero, suc, ◌≡◌, subst, ◌⊎◌, inl, inr, List, Option, none, some, if_cases, ltb, bind-eq-some,
}
use ldcp_sdk.Error.{ErrorCode, is_no_error}
use ldcp_sdk.Json.{Json}
use ldcp_sdk.Json.Data.{JsonData}
use ldcp_sdk.Transport.{Transport}
use ldcp_sdk.Session.{State, Event}
use ldcp_sdk.Device.Scan.{Progress, ScanFrame}
use ldcp_sdk.Device.Block.{LayeredBlock, BlockRead, read_scan_block}
use ldcp_sdk.Device.Reader.{
  Ended, returned, faulted, Batches, read_loop, read_session_frame, behind_read, behind_decode,
  behind_step,
}
use ldcp_sdk.Device.Calls.Runs.{Runs, Runs-refl, Runs-trans, poll-Runs}
use ldcp_sdk.Device.Calls.{after_frame, ended_state}

module _ {S E : Type 0} (s' : S) (c : ErrorCode) (f : ScanFrame) (l : List (List E)) where
  abbrev end : Ended S E
  end = returned s' c f l

  behind_step-on :
      (next : Progress → Option (Ended S E)) (o : Option Progress)
      → behind_step next o ≡ some end
      → (p : Progress) × (next p ≡ some end)
  unfolding behind_step
  behind_step-on next none e = cc
  behind_step-on next (some p) e = (p, e)

  behind_decode-on :
      (p : Progress) (next : Progress → LayeredBlock → Option (Ended S E)) (o : Option LayeredBlock)
      → behind_decode p next o ≡ some end
      → (p' : Progress) × (b : LayeredBlock) × (next p' b ≡ some end)
  unfolding behind_decode
  behind_decode-on p next none e = cc
  behind_decode-on p next (some b) e =
      let (p', on) = behind_step-on (λ p'. next p' b) _ e in (p', b, on)

  -- A round ends in the state behind its read, or goes on.
  behind_read-on :
      (p : Progress) (next : Progress → LayeredBlock → Option (Ended S E)) (r : BlockRead S E)
      → behind_read p next r ≡ some end
      → (r.state ≡ s') ⊎ ((p' : Progress) × (b : LayeredBlock) × (next p' b ≡ some end))
  unfolding behind_read
  behind_read-on p next r =
      if_cases
        (λ o.
          o ≡ some end
          → (r.state ≡ s') ⊎ ((p' : Progress) × (b : LayeredBlock) × (next p' b ≡ some end)))
        (is_no_error r.result) (λ ok e. inr (behind_decode-on p next r.block e)) (λ no e. inl (cc))

module _ (j : Json) (d : JsonData j) (t : Transport j.Value) where
  open j use {Value}

  pub read_scan_block-Runs :
      (s : State j t) (b : LayeredBlock) (batches : Batches j t)
      → Runs j t s (read_scan_block j d t s b batches).state
  unfolding read_scan_block
  read_scan_block-Runs s b batches = poll-Runs j t s batches

  read_loop-Runs :
      (fuel : ℕ) (p : Progress) (b : LayeredBlock) (s s' : State j t) (batches : Batches j t)
      (c : ErrorCode) (f : ScanFrame) (l : Batches j t)
      → read_loop j d t fuel p b s batches ≡ some (returned s' c f l)
      → Runs j t s s'
  unfolding read_loop
  read_loop-Runs zero p b s s' batches c f l = λ e. cc
  read_loop-Runs (suc fuel) p b s s' batches c f l =
      let r = read_scan_block j d t s b batches in
      let first : Runs j t s r.state = read_scan_block-Runs s b batches in
      if_cases (λ o. o ≡ some (returned s' c f l) → Runs j t s s')
        (ltb p.expected_block_index p.block_count)
        (λ more e.
          elim (behind_read-on s' c f l p (λ p' b'. read_loop j d t fuel p' b' r.state r.later) r
            e) [
              | inl same ↦ subst (Runs j t s) same first
              | inr (p', b', on) ↦
                  Runs-trans j t s r.state s' first
                    (read_loop-Runs fuel p' b' r.state s' r.later c f l on)
            ])
        (λ stops e. let same : s ≡ s' = cc in subst (Runs j t s) same (Runs-refl j t s))

  pub read_session_frame-Runs :
      (s s' : State j t) (b : LayeredBlock) (frame : ScanFrame) (batches : Batches j t)
      → after_frame j t (read_session_frame j d t s b frame batches) ≡ some s'
      → Runs j t s s'
  unfolding after_frame read_session_frame ended_state
  read_session_frame-Runs s s' b frame batches e =
      let (end, done, leaves) =
        bind-eq-some (ended_state j t) (read_session_frame j d t s b frame batches) e in
      ended-Runs end done leaves
    where
      ended-Runs :
          (end : Ended (State j t) (Event Value))
          → read_session_frame j d t s b frame batches ≡ some end
          → ended_state j t end ≡ some s'
          → Runs j t s s'
      ended-Runs (returned s₁ c f l) done leaves =
          subst (Runs j t s) (some-injective _ _ leaves)
            (read_loop-Runs _ _ b s s₁ batches c f l done)
      ended-Runs faulted done leaves = cc
