-- ===== src/Crypto/Sae.antt =====
-- SAE (crates/caw-crypto/src/sae.rs): what it takes from other packages, its state and its frames.
-- The group is P-256 of another package; a panic is `panics`, or an Option's `none`.
pub mod Frames
pub mod Element
pub mod Exchange
pub mod Laws
pub mod Inversion
pub mod Confirmed
pub mod Invariant
pub mod Runs
pub mod Timeouts
pub mod Reflection
pub mod Derivation
pub mod Meeting
pub mod Agreement
pub mod Toy
mod Examples
use caw.Prelude.{ℕ, ◌+◌, ◌*◌, Bool, List, [], ◌∷◌, Option, none, some, ltb, if◌then◌else◌}
use caw.Crypto.{CryptoError}

-- Points, scalars and what computes on them. `add`, `neg`, `mul` and `is_identity` are the group;
-- `coordinates` are x and y of a point, the identity has none; `from_sec1` reads an uncompressed
-- point behind its tag; `to_bytes` and `from_repr` are a scalar's octets; `reduce` and `map_to_curve`
-- reduce 48 octets and take them to the curve; `hkdf` takes the salt, the key, the label and the
-- length.
pub record SaeGroup : Type 1 where
  pub Point : Type 0
  pub Scalar : Type 0
  pub add : Point → Point → Point
  pub neg : Point → Point
  pub mul : Point → Scalar → Point
  pub is_identity : Point → Bool
  pub coordinates : Point → Option (List ℕ × List ℕ)
  pub from_sec1 : List ℕ → Option Point
  pub scalar_add : Scalar → Scalar → Scalar
  pub scalar_eq : Scalar → Scalar → Bool
  pub zero_scalar : Scalar
  pub one_scalar : Scalar
  pub two_scalar : Scalar
  pub to_bytes : Scalar → List ℕ
  pub from_repr : List ℕ → Option Scalar
  pub reduce : List ℕ → Scalar
  pub map_to_curve : List ℕ → Point
  pub order : ℕ
  pub hmac_sha256 : List ℕ → List ℕ → List ℕ
  pub hkdf : List ℕ → List ℕ → List ℕ → ℕ → List ℕ

abbrev pub scalar_len : ℕ
scalar_len = 32

abbrev pub element_len : ℕ
element_len = 64

abbrev pub hash_len : ℕ
hash_len = 32

abbrev pub pwd_value_len : ℕ
pwd_value_len = 48

abbrev pub seed_len : ℕ
seed_len = 96

abbrev pub sync_max : ℕ
sync_max = 5

pub record Commit (G : SaeGroup) : Type 0 where
  pub rand : G.Scalar
  pub scalar : G.Scalar
  pub pwe : G.Point
  pub scalar_bytes : List ℕ
  pub element_bytes : List ℕ

pub record Session : Type 0 where
  pub peer_scalar_bytes : List ℕ
  pub peer_element_bytes : List ℕ
  pub own_scalar_bytes : List ℕ
  pub own_element_bytes : List ℕ
  pub kck : List ℕ
  pub pmk : List ℕ

pub data State (G : SaeGroup) : Type 0 where
  idle : State G
  committed : Commit G → State G
  confirmed : Session → State G
  accepted : State G
  failed : State G

pub record SaeProvider (G : SaeGroup) : Type 0 where
  pub password : List ℕ
  pub seed : List ℕ
  pub state : State G
  pub last_sent : List ℕ
  pub sync : ℕ
  pub send_confirm : ℕ
  pub token : Option (List ℕ)
  pub pmkid : Option (List ℕ)

-- A value, an error, or a panic.
pub data Outcome (A : Type 0) : Type 0 where
  returns : A → Outcome A
  refuses : CryptoError → Outcome A
  panics : Outcome A

infixl 5 ◌>>=◌ ◌>>◌
abbrev pub ◌>>=◌ : {A B : Type 0} → Outcome A → (A → Outcome B) → Outcome B
returns a >>= f = f a
refuses e >>= f = refuses e
panics >>= f = panics

abbrev pub ◌>>◌ : {B : Type 0} → Outcome (Unit {0}) → Outcome B → Outcome B
m >> k = m >>= λ _. k

abbrev pub refuse_if : Bool → CryptoError → Outcome (Unit {0})
refuse_if test e = if test then refuses e else returns tt

-- `ok_or`, and `expect`.
abbrev pub or_refuse : {A : Type 0} → Option A → CryptoError → Outcome A
or_refuse none e = refuses e
or_refuse (some a) e = returns a

abbrev pub or_panic : {A : Type 0} → Option A → Outcome A
or_panic none = panics
or_panic (some a) = returns a
