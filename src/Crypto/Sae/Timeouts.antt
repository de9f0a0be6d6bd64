-- ===== src/Crypto/Sae/Timeouts.antt =====
-- The retransmissions of SAE (crates/caw-crypto/src/sae.rs, `on_timeout`).
use mathlib.Core.Path.{subst}
use caw.Prelude.{
  ℕ, zero, suc, ◌+◌, ◌≤◌, ◌<◌, Bool, true, false, ◌≡◌, refl, sym, ◌∙◌, ◌%◌, some, ok, err, arith,
  le→not_ltb,
}
use caw.Crypto.{auth_failed, send_step}
use caw.Crypto.Sae.{SaeGroup, SaeProvider, State, idle, committed, confirmed, accepted, failed}
use caw.Crypto.Sae.Exchange.{on_timeout, on_timeout_in, resend}
use caw.Prelude.{replicate}
use caw.Crypto.Sae.Runs.{timeout_event, handle, run}

module _ (G : SaeGroup) where
  -- A frame of ours is out.
  unfoldable pub is_waiting : State G → Bool
  is_waiting (committed c) = true
  is_waiting (confirmed session) = true
  is_waiting _ = false

  on_timeout_in-waiting :
      (state : State G) (p : SaeProvider G)
      → is_waiting state ≡ true
      → on_timeout_in G state p ≡ resend G p
  unfolding is_waiting on_timeout_in
  on_timeout_in-waiting (committed c) p h = refl
  on_timeout_in-waiting (confirmed session) p h = refl
  on_timeout_in-waiting accepted p h = cc h
  on_timeout_in-waiting failed p h = cc h
  on_timeout_in-waiting idle p h = cc h

  module _ (p : SaeProvider G) (waits : is_waiting p.state ≡ true) where
    resends :
        (n : ℕ)
        → n < 5
        → on_timeout G (record p { sync = n })
          ≡ (record p { sync = n + 1 }, ok (send_step p.last_sent))
    unfolding on_timeout resend
    resends n h =
        let next : (n + 1) % 256 ≡ n + 1 = omega arith in
        on_timeout_in-waiting p.state (record p { sync = n }) waits
        ∙ rw (next, le→not_ltb 5 (n + 1) (omega arith)) refl

    resends_more :
        (k n : ℕ)
        → n + k ≤ 5
        → run G (record p { sync = n }) (replicate k timeout_event)
          ≡ some (record p { sync = n + k }, replicate k p.last_sent)
    unfolding run handle
    resends_more zero n h = let same : n + 0 ≡ n = omega arith in rw same refl
    resends_more (suc k) n h =
        let shift : n + 1 + k ≡ n + suc k = omega arith in
        rw (resends n (omega arith), resends_more k (n + 1) (omega arith), shift) refl

    -- While a frame of the exchange waits for an answer, each of the first five timeouts sends that very
    -- frame again and nothing else changes but their count; the one after them refuses.
    pub on_timeout-resends :
        (k : ℕ)
        → p.sync ≡ 0
        → k ≤ 5
        → (run G p (replicate k timeout_event)
            ≡ some (record p { sync = k }, replicate k p.last_sent))
          × (on_timeout G (record p { sync = 5 }) ≡ (record p { sync = 6 }, err auth_failed))
    unfolding on_timeout resend
    on_timeout-resends k fresh h = (
      subst
          (λ n.
            run G (record p { sync = n }) (replicate k timeout_event)
            ≡ some (record p { sync = k }, replicate k p.last_sent))
          (sym fresh)
          (let same : 0 + k ≡ k = omega arith in
            subst
              (λ n.
                run G (record p { sync = 0 }) (replicate k timeout_event)
                ≡ some (record p { sync = n }, replicate k p.last_sent))
              same (resends_more k 0 (omega arith))),
      on_timeout_in-waiting p.state (record p { sync = 5 }) waits,
    )
