-- ===== src/Core/Conn/Replay.antt =====
-- The timer that is held, as actions set and clear it (crates/caw-core/src/conn.rs, `SetTimer`,
-- `ClearTimer`).
use caw.Prelude.{
  Bool, true, false, List, [], ◌∷◌, ◌++◌, ◌==◌, ◌≡◌, refl, sym, ◌∙◌, if◌then◌else◌, Option, none,
  some, arith, Option-cases, inl, inr,
}
use caw.Core.Auth.{Providers}
use caw.Core.Conn.{
  State, TimerId, scan_timeout, auth_timeout, assoc_timeout, handshake_retry, reconnect_backoff,
  Action, set_timer, clear_timer, timer_of,
}
use caw.Core.Conn.Transition.{cleared, is_stale, timer_tag}

-- The timer that is set and not cleared, expired or not. It may be set again; setting another while
-- it is held, or clearing one that is not, is not allowed.
unfoldable pub timer_step : Option TimerId → Action → Option (Option TimerId)
timer_step running (set_timer id millis) =
    if is_stale running (some id) then none else some (some id)
timer_step none (clear_timer id) = none
timer_step (some running) (clear_timer id) =
    if timer_tag running == timer_tag id then some none else none
timer_step running _ = some running

unfoldable pub replay : Option TimerId → List Action → Option (Option TimerId)
replay running [] = some running
replay running (action ∷ actions) = elim (timer_step running action) [
  | none ↦ none
  | some next ↦ replay next actions
]

pub replay-cons :
    (running mid : Option TimerId) (x : Action) (xs : List Action)
    → timer_step running x ≡ some mid
    → replay running (x ∷ xs) ≡ replay mid xs
unfolding replay
replay-cons running mid x xs e = rw (e, replay) refl

replay-stuck :
    (running : Option TimerId) (x : Action) (xs : List Action)
    → timer_step running x ≡ none
    → replay running (x ∷ xs) ≡ none
unfolding replay
replay-stuck running x xs e = rw (e, replay) refl

pub replay-append :
    (running next : Option TimerId) (xs ys : List Action)
    → replay running xs ≡ some next
    → replay running (xs ++ ys) ≡ replay next ys
unfolding replay
replay-append running next [] ys e = let same : running ≡ next = cc e in rw same refl
replay-append running next (x ∷ xs) ys e = elim (Option-cases (timer_step running x)) [
  | inl stuck ↦ cc (replay-stuck running x xs stuck, e)
  | inr (mid, now) ↦
      replay-cons running mid x (xs ++ ys) now
      ∙ replay-append mid next xs ys (sym (replay-cons running mid x xs now) ∙ e)
]

-- The armed timer, if any, is the state's.
abbrev pub IsTimed : Option TimerId → State → Type 0
IsTimed armed state = is_stale armed (timer_of state) ≡ false

pub is_stale_itself : (id : TimerId) → is_stale (some id) (some id) ≡ false
unfolding is_stale
is_stale_itself scan_timeout = refl
is_stale_itself auth_timeout = refl
is_stale_itself assoc_timeout = refl
is_stale_itself handshake_retry = refl
is_stale_itself reconnect_backoff = refl

clears_itself : (id : TimerId) → timer_step (some id) (clear_timer id) ≡ some none
unfolding timer_step
clears_itself scan_timeout = refl
clears_itself auth_timeout = refl
clears_itself assoc_timeout = refl
clears_itself handshake_retry = refl
clears_itself reconnect_backoff = refl

pub replay-cleared :
    (P : Providers) (armed : Option TimerId) → replay armed (cleared P armed) ≡ some none
unfolding replay
replay-cleared P none = refl
replay-cleared P (some id) = replay-cons (some id) none (clear_timer id) [] (clears_itself id)

pub none-IsTimed : (state : State) → IsTimed none state
unfolding is_stale
none-IsTimed state = refl

-- An action that is not about timers.
abbrev pub is_plain : Action → Bool
is_plain (set_timer id millis) = false
is_plain (clear_timer id) = false
is_plain _ = true

pub plain_step :
    (running : Option TimerId) (x : Action)
    → is_plain x ≡ true
    → timer_step running x ≡ some running
unfolding timer_step
plain_step running x e = ground arith
