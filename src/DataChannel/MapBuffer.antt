-- ===== src/DataChannel/MapBuffer.antt =====
-- datachannel/mapmessagebuffer.go: the incoming messages by key. A Go map is a list of pairs with
-- distinct keys, whose order nothing reads. The mutex makes each method one step.
pub mod Laws
use ecstoolkit.Base.{
  ℕ, Bool, true, false, List, [], ◌∷◌, Option, some, none, ◌==◌, ◌↔◌, ◌≡◌, if◌then◌else◌, length,
}

-- `comparable`: the equality of keys.
pub record Comparable {ℓ} (K : Type ℓ) : Type ℓ where
  pub eqb : K → K → Bool
  pub eqb_iff : (a b : K) → (eqb a b ≡ true) ↔ (a ≡ b)

pub record MapMessageBuffer {ℓ κ} (K : Type ℓ) (V : Type κ) : Type (ℓ ⊔ κ) where
  pub messages : List (K × V)
  pub capacity : ℕ

module _ {ℓ κ} {K : Type ℓ} {V : Type κ} where
  unfoldable pub new_map_message_buffer : ℕ → MapMessageBuffer K V
  new_map_message_buffer capacity = record { messages = []; capacity = capacity }

module _ {ℓ κ} {K : Type ℓ} {V : Type κ} ⦃c : Comparable K⦄ where
  -- `m[k]`
  unfoldable pub lookup : K → List (K × V) → Option V
  lookup k [] = none
  lookup k ((j, v) ∷ m) = if c.eqb j k then some v else lookup k m

  -- `m[k] = v`
  unfoldable pub assign : K → V → List (K × V) → List (K × V)
  assign k v [] = (k, v) ∷ []
  assign k v ((j, w) ∷ m) = if c.eqb j k then (j, v) ∷ m else (j, w) ∷ assign k v m

  -- `delete(m, k)`
  unfoldable pub delete : K → List (K × V) → List (K × V)
  delete k [] = []
  delete k ((j, w) ∷ m) = if c.eqb j k then m else (j, w) ∷ delete k m

  unfoldable pub get : MapMessageBuffer K V → K → Option V
  get b idx = lookup idx b.messages

  unfoldable pub set_unless_full : MapMessageBuffer K V → K → V → Bool × MapMessageBuffer K V
  set_unless_full b idx item =
      if length b.messages == b.capacity
      then (false, b)
      else (true, record b { messages = assign idx item b.messages })

  unfoldable pub remove : MapMessageBuffer K V → K → Option V × MapMessageBuffer K V
  remove b idx = elim (lookup idx b.messages) [
    | some item ↦ (some item, record b { messages = delete idx b.messages })
    | none ↦ (none, b)
  ]

module _ {ℓ κ} {K : Type ℓ} {V : Type κ} where
  unfoldable pub is_full : MapMessageBuffer K V → Bool
  is_full b = length b.messages == b.capacity
