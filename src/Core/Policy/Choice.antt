-- ===== src/Core/Policy/Choice.antt =====
-- What the choice of a key-management suite guarantees (crates/caw-core/src/policy.rs, `choose_akm`).
use caw.Prelude.{
  ℕ, ◌≤◌, ◌≡◌, refl, Bool, true, false, List, [], ◌∷◌, Option, none, some, arith, inl, inr, ◌⊎◌,
}
use caw.Wifi.Suites.{
  Akm, psk, psk_sha256, sae, dot1x, dot1x_sha256, is_psk, is_sae, is_enterprise, akm_eq,
  contains_akm, any_akm, RsnIe, Security, from_akms,
}
use caw.Core.Policy.{
  Credential, passphrase, strength, is_at_least, security_floor, satisfies, runnable, is_usable,
  choose_akm, negotiated_security,
}

-- The place of a suite in the order of preference; suites that are never chosen come last.
abbrev place : Akm → ℕ
place sae = 0
place dot1x_sha256 = 1
place psk_sha256 = 2
place dot1x = 3
place psk = 4
place _ = 5

never_runs :
    (has_enterprise : Bool) (akm : Akm) → runnable has_enterprise akm ≡ true → place akm ≤ 4
unfolding runnable
never_runs has_enterprise akm h = ground arith

usable_in_order :
    (has_enterprise : Bool) (rsn : RsnIe) (credential : Option Credential) (b : Akm)
    → is_usable has_enterprise rsn credential b ≡ true
    → place b ≤ 4
unfolding is_usable
usable_in_order has_enterprise rsn credential b u = ground (arith, never_runs has_enterprise b)

-- What a choice must be against the suite `b`: usable, and not less preferred than `b` where `b`
-- is usable; with no choice `b` is not usable.
abbrev pub Prefers : Bool → RsnIe → Option Credential → Option Akm → Akm → Type 0
Prefers has_enterprise rsn credential none b = is_usable has_enterprise rsn credential b ≡ false
Prefers has_enterprise rsn credential (some a) b =
    (is_usable has_enterprise rsn credential a ≡ true)
    × ((is_usable has_enterprise rsn credential b ≡ false) ⊎ (place a ≤ place b))

-- The suite chosen, if any, is one that the network offers, the credential satisfies and the build
-- can run, and no such suite `b` is preferred to it; where none is chosen there is no such `b`.
pub choose_akm_lem :
    (has_enterprise : Bool) (rsn : RsnIe) (credential : Option Credential) (b : Akm)
    → Prefers has_enterprise rsn credential (choose_akm has_enterprise rsn credential) b
unfolding choose_akm
choose_akm_lem has_enterprise rsn credential sae = ground arith
choose_akm_lem has_enterprise rsn credential dot1x_sha256 = ground arith
choose_akm_lem has_enterprise rsn credential psk_sha256 = ground arith
choose_akm_lem has_enterprise rsn credential dot1x = ground arith
choose_akm_lem has_enterprise rsn credential psk = ground arith
choose_akm_lem has_enterprise rsn credential b =
    ground (arith, usable_in_order has_enterprise rsn credential b)

any-contains :
    (p : Akm → Bool) (akms : List Akm) (a : Akm)
    → p a ≡ true
    → ((x : Akm) → akm_eq x a ≡ true → p x ≡ p a)
    → contains_akm akms a ≡ true
    → any_akm p akms ≡ true
any-contains p [] a h same c = cc
any-contains p (x ∷ xs) a h same c = ground (arith, same x, any-contains p xs a h same)

same_sae : (x : Akm) → akm_eq x sae ≡ true → is_sae x ≡ is_sae sae
unfolding is_sae
same_sae x e = ground arith

same_psk : (x : Akm) → akm_eq x psk ≡ true → is_psk x ≡ is_psk psk
unfolding is_psk
same_psk x e = ground arith

same_psk_sha256 : (x : Akm) → akm_eq x psk_sha256 ≡ true → is_psk x ≡ is_psk psk_sha256
unfolding is_psk
same_psk_sha256 x e = ground arith

abbrev pub NegotiatesPersonal : RsnIe → Akm → Type 0
NegotiatesPersonal rsn a =
    ((a ≡ sae) × (any_akm is_sae rsn.akms ≡ true))
    ⊎ ((is_sae a ≡ false) × (is_psk a ≡ true) × (any_akm is_psk rsn.akms ≡ true))

chosen_is_personal :
    (has_enterprise : Bool) (rsn : RsnIe) (secret : List ℕ) (a : Akm)
    → is_usable has_enterprise rsn (some (passphrase secret)) a ≡ true
    → NegotiatesPersonal rsn a
unfolding is_usable satisfies runnable is_psk is_sae
chosen_is_personal has_enterprise rsn secret sae u =
    inl (refl, any-contains is_sae rsn.akms sae refl same_sae (ground arith))
chosen_is_personal has_enterprise rsn secret psk u =
    inr (refl, refl, any-contains is_psk rsn.akms psk refl same_psk (ground arith))
chosen_is_personal has_enterprise rsn secret psk_sha256 u =
    inr (refl, refl, any-contains is_psk rsn.akms psk_sha256 refl same_psk_sha256 (ground arith))
chosen_is_personal has_enterprise rsn secret a u = absurd (ground arith)

personal_clears :
    (rsn : RsnIe) (a : Akm) (mfp_required : Bool) (observed : Security)
    → NegotiatesPersonal rsn a
    → any_akm is_enterprise rsn.akms ≡ false
    → from_akms rsn.akms mfp_required ≡ some observed
    → is_at_least (negotiated_security a mfp_required) (security_floor observed) ≡ true
unfolding from_akms is_at_least negotiated_security security_floor strength
personal_clears rsn a mfp_required observed (inl (e, any)) none_enterprise f =
    rw e (unfold is_sae in ground arith)
personal_clears rsn a mfp_required observed (inr (not_sae, is, any)) none_enterprise f =
    ground arith

usable_choice :
    (has_enterprise : Bool) (rsn : RsnIe) (credential : Option Credential) (a : Akm)
    → choose_akm has_enterprise rsn credential ≡ some a
    → is_usable has_enterprise rsn credential a ≡ true
unfolding choose_akm
usable_choice has_enterprise rsn credential a h = ground arith

-- On a network with a known suite and none for an enterprise, the suite chosen for a passphrase
-- gives at least the security that a profile records as its floor for that network.
pub choose_akm-clears_floor :
    (has_enterprise : Bool) (rsn : RsnIe) (secret : List ℕ) (a : Akm) (observed : Security)
    → choose_akm has_enterprise rsn (some (passphrase secret)) ≡ some a
    → any_akm is_enterprise rsn.akms ≡ false
    → from_akms rsn.akms rsn.mfp_required ≡ some observed
    → is_at_least (negotiated_security a rsn.mfp_required) (security_floor observed) ≡ true
choose_akm-clears_floor has_enterprise rsn secret a observed h none_enterprise f =
    personal_clears rsn a rsn.mfp_required observed
      (chosen_is_personal has_enterprise rsn secret a
        (usable_choice has_enterprise rsn (some (passphrase secret)) a h))
      none_enterprise f
