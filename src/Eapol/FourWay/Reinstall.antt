-- ===== src/Eapol/FourWay/Reinstall.antt =====
-- Message 1 after the handshake is established (crates/caw-eapol/src/lib.rs, `on_frame`).
use caw.Prelude.{true, false, List, ◌≡◌, ap, ◌∙◌, sym, some, ok}
use caw.Crypto.{Ptk}
use caw.Eapol.Frame.{Eapol}
use caw.Eapol.Key.{KeyFrame}
use caw.Eapol.FourWay.{
  FourWay, Primitives, Keys, Action, awaiting_msg3, established, derive, dispatch, on_msg1, on_msg3,
  after_msg1,
}
use caw.Eapol.FourWay.Handlers.{on_msg1-eq-ok, on_msg3-eq-ok}
use caw.Eapol.FourWay.Authentic.{completed, keys_in}

module _ (prim : Primitives) (h h1 h2 : FourWay) (e1 e3 : Eapol) (m1 m3 : KeyFrame)
    (first second : List Action) (ptk : Ptk) where
  after_same_nonce :
      derive prim h h.anonce ≡ ok ptk
      → m1.key_nonce ≡ h.anonce
      → on_msg1 prim h e1 m1 ≡ ok (h1, first)
      → (h1.state ≡ awaiting_msg3) × (h1.ptk ≡ some ptk)
  unfolding after_msg1
  after_same_nonce derived same e =
      let (version, ptk', msg2, answer) = on_msg1-eq-ok prim h h1 first e1 m1 e in
      let equal : ptk' ≡ ptk = cc (derived, same, answer.derives) in
      (ap (λ m. m.state) answer.gives, ap (λ m. m.ptk) answer.gives ∙ ap some equal)

  -- If an established machine, whose PTK comes from its ANonce, answers a message 1 that repeats
  -- this ANonce, which needs no MIC, and then answers a message 3, it hands the same PTK out
  -- again.
  pub reinstall :
      h.state ≡ established
      → h.ptk ≡ some ptk
      → derive prim h h.anonce ≡ ok ptk
      → m1.key_nonce ≡ h.anonce
      → dispatch prim h e1 m1 h.state true false ≡ ok (h1, first)
      → dispatch prim h1 e3 m3 h1.state true true ≡ ok (h2, second)
      → (keys : Keys) × (completed second ≡ some keys) × (h.ptk ≡ some keys.ptk)
  unfolding dispatch completed keys_in
  reinstall was has derived same answered done =
      let (waiting, ready) = after_same_nonce derived same answered in
      let sent : on_msg3 prim h1 e3 m3 true ≡ ok (h2, second) =
        sym (ap (λ s. dispatch prim h1 e3 m3 s true true) waiting) ∙ done in
      let (ptk', gtk, msg4, answer) = on_msg3-eq-ok prim h1 h2 second e3 m3 true sent in
      (record { ptk = ptk'; gtk = gtk }, ap completed answer.does, cc (has, ready, answer.has_ptk))
