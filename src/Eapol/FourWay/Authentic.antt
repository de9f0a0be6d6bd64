-- ===== src/Eapol/FourWay/Authentic.antt =====
-- When the handshake hands out keys (crates/caw-eapol/src/lib.rs, `FourWay`).
use caw.Prelude.{
  ℕ, Bool, true, false, List, ◌∷◌, ◌≡◌, refl, inl, inr, Option, none, some, ok, arith, find_map,
}
use caw.Crypto.{Ptk}
use caw.Eapol.Frame.{Eapol}
use caw.Eapol.Key.{KeyFrame}
use caw.Eapol.Key.Data.{Gtk}
use caw.Eapol.FourWay.{
  FourWay, Primitives, Keys, Action, send, arm_timer, disarm_timer, complete, new_gtk,
  awaiting_msg3, on_msg1, on_msg3, on_group_msg1, on_frame, on_timeout, Input, frame_input,
  timeout_input, poll, after_msg3, installed,
}
use caw.Eapol.FourWay.Inversion.{settle-eq-ok, IsFresh, on_frame-eq-ok}
use caw.Eapol.FourWay.Handlers.{
  IsMsg3, verify_msg3-IsMsg3, on_msg1-eq-ok, on_msg3-eq-ok, on_group_msg1-eq-ok,
  dispatch-IsAnswered, IsAnswered, by_msg1, by_msg3, by_msg3_again, by_group_msg1,
}

unfoldable pub keys_in : Action → Option Keys
keys_in (send frame) = none
keys_in (arm_timer millis) = none
keys_in disarm_timer = none
keys_in (complete keys) = some keys
keys_in (new_gtk gtk) = none

-- The keys that a list of actions installs first.
unfoldable pub completed : List Action → Option Keys
completed actions = find_map keys_in actions

completed-installed :
    (install : Bool) (ptk : Ptk) (gtk : Gtk) (msg4 : List ℕ) (keys : Keys)
    → completed (send msg4 ∷ disarm_timer ∷ installed install ptk gtk) ≡ some keys
    → (install ≡ true) × (keys ≡ record { ptk = ptk; gtk = gtk })
unfolding completed keys_in
completed-installed true ptk gtk msg4 keys e = (refl, cc e)
completed-installed false ptk gtk msg4 keys e = cc e

-- How keys come to be installed by one input.
pub record IsInstall (prim : Primitives) (h h' : FourWay) (input : Input) (keys : Keys)
    : Type 0 where
  pub bytes : List ℕ
  pub eapol : Eapol
  pub frame : KeyFrame
  pub key_data : List ℕ
  pub is_frame : input ≡ frame_input bytes
  pub is_fresh : IsFresh h bytes eapol frame
  pub was_waiting : h.state ≡ awaiting_msg3
  pub has_ptk : h.ptk ≡ some keys.ptk
  pub is_msg3 : IsMsg3 prim h eapol frame keys.ptk keys.gtk key_data
  pub is_done : h' ≡ after_msg3 h frame

module _ (prim : Primitives) (h h' : FourWay) (actions : List Action) (keys : Keys) where
  none_by_msg1 :
      (eapol : Eapol) (frame : KeyFrame)
      → on_msg1 prim h eapol frame ≡ ok (h', actions)
      → completed actions ≡ none
  unfolding completed keys_in
  none_by_msg1 eapol frame e =
      let (version, ptk, msg2, answer) = on_msg1-eq-ok prim h h' actions eapol frame e in
      rw answer.does

  none_by_group :
      (eapol : Eapol) (frame : KeyFrame)
      → on_group_msg1 prim h eapol frame ≡ ok (h', actions)
      → completed actions ≡ none
  unfolding completed keys_in
  none_by_group eapol frame e =
      let (ptk, gtk, msg2, answer) = on_group_msg1-eq-ok prim h h' actions eapol frame e in
      rw answer.does

  keys_of_answer :
      (eapol : Eapol) (frame : KeyFrame) (install : Bool)
      → on_msg3 prim h eapol frame install ≡ ok (h', actions)
      → completed actions ≡ some keys
      → (install ≡ true)
        × (h.ptk ≡ some keys.ptk)
        × (h' ≡ after_msg3 h frame)
        × ((key_data : List ℕ) × IsMsg3 prim h eapol frame keys.ptk keys.gtk key_data)
  keys_of_answer eapol frame install e done =
      let (ptk, gtk, msg4, answer) = on_msg3-eq-ok prim h h' actions eapol frame install e in
      let (is_install, same) =
        completed-installed install ptk gtk msg4 keys (rw (← answer.does) done) in
      rw same (
        is_install,
        answer.has_ptk,
        answer.gives,
        verify_msg3-IsMsg3 prim h eapol frame ptk gtk answer.is_verified,
      )

  by_answer :
      (bytes : List ℕ) (eapol : Eapol) (frame : KeyFrame)
      → IsFresh h bytes eapol frame
      → completed actions ≡ some keys
      → IsAnswered prim h h' actions eapol frame h.state
      → IsInstall prim h h' (frame_input bytes) keys
  by_answer bytes eapol frame fresh done (by_msg1 e) = cc (done, none_by_msg1 eapol frame e)
  by_answer bytes eapol frame fresh done (by_group_msg1 _ e) =
      cc (done, none_by_group eapol frame e)
  by_answer bytes eapol frame fresh done (by_msg3_again _ e) =
      cc ((keys_of_answer eapol frame false e done).0)
  by_answer bytes eapol frame fresh done (by_msg3 waiting e) =
      let (_, ptk, gives, found) = keys_of_answer eapol frame true e done in
      record {
        bytes = bytes;
        eapol = eapol;
        frame = frame;
        key_data = found.0;
        is_frame = refl;
        is_fresh = fresh;
        was_waiting = waiting;
        has_ptk = ptk;
        is_msg3 = found.1;
        is_done = gives;
      }

  by_frame :
      (bytes : List ℕ)
      → on_frame prim h bytes ≡ ok (h', actions)
      → completed actions ≡ some keys
      → IsInstall prim h h' (frame_input bytes) keys
  unfolding completed
  by_frame bytes e done = elim (on_frame-eq-ok prim h h' actions bytes e) [
    | inl gone ↦ cc (done, gone.1)
    | inr (eapol, frame, fresh, sent) ↦
        by_answer bytes eapol frame fresh done
          (dispatch-IsAnswered prim h h' actions eapol frame h.state _ _ sent)
  ]

  none_by_timeout : on_timeout h ≡ ok (h', actions) → completed actions ≡ none
  unfolding on_timeout completed keys_in
  none_by_timeout e = ground arith

  -- Keys are handed out only by a frame that carries a fresh counter, while message 3 is awaited:
  -- its MIC verifies under the PTK that is handed out, it names the ANonce of message 1, its Key
  -- Data is encrypted, repeats the RSN element of the beacon and carries the group key that is
  -- handed out. The machine is established afterwards.
  pub poll-IsInstall :
      (input : Input)
      → poll prim h input ≡ some (h', ok actions)
      → completed actions ≡ some keys
      → IsInstall prim h h' input keys
  unfolding poll
  poll-IsInstall (frame_input bytes) e done =
      by_frame bytes (settle-eq-ok h h' (on_frame prim h bytes) actions e) done
  poll-IsInstall timeout_input e done =
      cc (done, none_by_timeout (settle-eq-ok h h' (on_timeout h) actions e))
