-- ===== src/Eapol/FourWay/Handlers.antt =====
-- What a handler that answers has checked, and what it then does (crates/caw-eapol/src/lib.rs,
-- `on_msg1`, `on_msg3`, `on_group_msg1`).
use caw.Prelude.{
  ℕ, Bool, true, false, not, List, [], ◌∷◌, ◌≡◌, refl, some, ok, >>=-eq-ok, >>-eq-ok, fail_if,
  fail_if-eq-ok, ok_or, ok_or-eq-ok, arith,
}
use caw.Prelude.Words.{bytes_eq, bytes_eq→eq}
use caw.Crypto.{Ptk}
use caw.Crypto.Mic.{KeyDescriptorVersion}
use caw.Eap.Error.{malformed, nonce_mismatch, rsn_mismatch, unexpected_message, rsn_missing}
use caw.Eapol.Frame.{Eapol}
use caw.Eapol.Key.{KeyFrame, has_bit, encrypted_bit, verify_frame_mic, lift_crypto, version_of}
use caw.Eapol.Key.Data.{Gtk, gtk_kde, rsn_element}
use caw.Eapol.FourWay.{
  FourWay, Primitives, Action, send, arm_timer, disarm_timer, new_gtk, panicked, State, idle,
  awaiting_msg3, established, failed, attempt, dispatch, on_msg1, on_msg3, on_group_msg1,
  verify_msg3, verify_group, derive, msg2_of, msg4_of, group_msg2_of, after_msg1, after_msg3,
  installed, retry_interval_ms,
}
use caw.Eapol.FourWay.Inversion.{attempt-eq-ok, not-not}

-- `frame` proves the PTK by its MIC, names the ANonce of message 1, and its unwrapped Key Data
-- repeat the beacon's RSN element and carry the GTK.
pub record IsMsg3 (prim : Primitives) (h : FourWay) (eapol : Eapol) (frame : KeyFrame) (ptk : Ptk)
    (gtk : Gtk) (key_data : List ℕ) : Type 0 where
  pub has_mic :
      verify_frame_mic prim.macs eapol.raw ptk.kck h.descriptor_version frame.key_mic ≡ ok tt
  pub has_nonce : frame.key_nonce ≡ h.anonce
  pub is_encrypted : has_bit frame.key_info encrypted_bit ≡ true
  pub has_key_data : lift_crypto (prim.unwrap_key_data ptk.kek frame.key_data) ≡ ok key_data
  pub has_rsn : rsn_element key_data ≡ some h.config.beacon_rsn_ie
  pub has_gtk : gtk_kde key_data ≡ ok gtk

module _ (prim : Primitives) (h : FourWay) (eapol : Eapol) (frame : KeyFrame) where
  pub verify_msg3-IsMsg3 :
      (ptk : Ptk) (gtk : Gtk)
      → verify_msg3 prim h eapol frame ptk ≡ ok gtk
      → (key_data : List ℕ) × IsMsg3 prim h eapol frame ptk gtk key_data
  unfolding verify_msg3
  verify_msg3-IsMsg3 ptk gtk e =
      let (mic, e1) =
        >>-eq-ok (verify_frame_mic prim.macs eapol.raw ptk.kck h.descriptor_version frame.key_mic) _
          e in
      let (nonce, e2) =
        >>-eq-ok (fail_if (not (bytes_eq frame.key_nonce h.anonce)) nonce_mismatch) _ e1 in
      let (enc, e3) =
        >>-eq-ok (fail_if (not (has_bit frame.key_info encrypted_bit)) malformed) _ e2 in
      let (key_data, unwrapped, e4) =
        >>=-eq-ok (lift_crypto (prim.unwrap_key_data ptk.kek frame.key_data)) _ e3 in
      let (advertised, found, e5) = >>=-eq-ok (ok_or (rsn_element key_data) rsn_missing) _ e4 in
      let (same, e6) =
        >>-eq-ok (fail_if (not (bytes_eq advertised h.config.beacon_rsn_ie)) rsn_mismatch) _ e5 in
      let rsn : advertised ≡ h.config.beacon_rsn_ie =
        bytes_eq→eq _ _ (not-not (fail_if-eq-ok _ _ tt same)) in
      (
        key_data,
        record {
          has_mic = mic;
          has_nonce = bytes_eq→eq _ _ (not-not (fail_if-eq-ok _ _ tt nonce));
          is_encrypted = not-not (fail_if-eq-ok _ _ tt enc);
          has_key_data = unwrapped;
          has_rsn = rw (← rsn) (ok_or-eq-ok _ _ advertised found);
          has_gtk = e6;
        },
      )

module _ (prim : Primitives) (h h' : FourWay) (actions : List Action) (eapol : Eapol)
    (frame : KeyFrame) where
  pub record IsAnswer1 (version : KeyDescriptorVersion) (ptk : Ptk) (msg2 : List ℕ) : Type 0 where
    pub derives : derive prim h frame.key_nonce ≡ ok ptk
    pub gives : h' ≡ after_msg1 h eapol frame version ptk msg2
    pub does : actions ≡ send msg2 ∷ arm_timer retry_interval_ms ∷ []

  pub record IsAnswer3 (install : Bool) (ptk : Ptk) (gtk : Gtk) (msg4 : List ℕ) : Type 0 where
    pub has_ptk : h.ptk ≡ some ptk
    pub is_verified : verify_msg3 prim h eapol frame ptk ≡ ok gtk
    pub gives : h' ≡ after_msg3 h frame
    pub does : actions ≡ send msg4 ∷ disarm_timer ∷ installed install ptk gtk

  pub record IsGroupAnswer (ptk : Ptk) (gtk : Gtk) (msg2 : List ℕ) : Type 0 where
    pub has_ptk : h.ptk ≡ some ptk
    pub is_verified : verify_group prim h eapol frame ptk ≡ ok gtk
    pub gives : h' ≡ record h { rx_counter = some frame.replay_counter }
    pub does : actions ≡ send msg2 ∷ new_gtk gtk ∷ []

  pub on_msg1-eq-ok :
      on_msg1 prim h eapol frame ≡ ok (h', actions)
      → (version : KeyDescriptorVersion) × (ptk : Ptk) × (msg2 : List ℕ) × IsAnswer1 version ptk
          msg2
  unfolding on_msg1
  on_msg1-eq-ok e =
      let (version, e0, e1) = >>=-eq-ok (attempt (version_of frame.key_info h.config.akm)) _ e in
      let (ptk, derived, e2) = >>=-eq-ok (attempt (derive prim h frame.key_nonce)) _ e1 in
      let (msg2, e3, e4) =
        >>=-eq-ok (ok_or (msg2_of prim h eapol frame version ptk) panicked) _ e2 in
      (
        version,
        ptk,
        msg2,
        record { derives = attempt-eq-ok _ ptk derived; gives = cc e4; does = cc e4 },
      )

  pub on_msg3-eq-ok :
      (install : Bool)
      → on_msg3 prim h eapol frame install ≡ ok (h', actions)
      → (ptk : Ptk) × (gtk : Gtk) × (msg4 : List ℕ) × IsAnswer3 install ptk gtk msg4
  unfolding on_msg3
  on_msg3-eq-ok install e =
      let (ptk, some_ptk, e1) = >>=-eq-ok (attempt (ok_or h.ptk unexpected_message)) _ e in
      let (gtk, verified, e2) = >>=-eq-ok (attempt (verify_msg3 prim h eapol frame ptk)) _ e1 in
      let (msg4, e3, e4) = >>=-eq-ok (ok_or (msg4_of prim h frame ptk) panicked) _ e2 in
      (
        ptk,
        gtk,
        msg4,
        record {
          has_ptk = ok_or-eq-ok _ _ ptk (attempt-eq-ok _ ptk some_ptk);
          is_verified = attempt-eq-ok _ gtk verified;
          gives = cc e4;
          does = cc e4;
        },
      )

  pub on_group_msg1-eq-ok :
      on_group_msg1 prim h eapol frame ≡ ok (h', actions)
      → (ptk : Ptk) × (gtk : Gtk) × (msg2 : List ℕ) × IsGroupAnswer ptk gtk msg2
  unfolding on_group_msg1
  on_group_msg1-eq-ok e =
      let (ptk, some_ptk, e1) = >>=-eq-ok (attempt (ok_or h.ptk unexpected_message)) _ e in
      let (gtk, verified, e2) = >>=-eq-ok (attempt (verify_group prim h eapol frame ptk)) _ e1 in
      let (msg2, e3, e4) = >>=-eq-ok (ok_or (group_msg2_of prim h frame ptk) panicked) _ e2 in
      (
        ptk,
        gtk,
        msg2,
        record {
          has_ptk = ok_or-eq-ok _ _ ptk (attempt-eq-ok _ ptk some_ptk);
          is_verified = attempt-eq-ok _ gtk verified;
          gives = cc e4;
          does = cc e4;
        },
      )

  -- Which handler answers in which state.
  pub data IsAnswered (state : State) : Type 0 where
    by_msg1 : on_msg1 prim h eapol frame ≡ ok (h', actions) → IsAnswered state
    by_msg3 :
        state ≡ awaiting_msg3
        → on_msg3 prim h eapol frame true ≡ ok (h', actions)
        → IsAnswered state
    by_msg3_again :
        state ≡ established → on_msg3 prim h eapol frame false ≡ ok (h', actions) → IsAnswered state
    by_group_msg1 :
        state ≡ established → on_group_msg1 prim h eapol frame ≡ ok (h', actions) → IsAnswered state

  pub dispatch-IsAnswered :
      (state : State) (pairwise mic : Bool)
      → dispatch prim h eapol frame state pairwise mic ≡ ok (h', actions)
      → IsAnswered state
  unfolding dispatch
  dispatch-IsAnswered state true false e = by_msg1 e
  dispatch-IsAnswered state false false e = ground arith
  dispatch-IsAnswered idle pairwise true e = ground arith
  dispatch-IsAnswered failed pairwise true e = ground arith
  dispatch-IsAnswered awaiting_msg3 true true e = by_msg3 refl e
  dispatch-IsAnswered awaiting_msg3 false true e = cc e
  dispatch-IsAnswered established true true e = by_msg3_again refl e
  dispatch-IsAnswered established false true e = by_group_msg1 refl e
