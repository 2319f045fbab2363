-- ===== src/DataChannel/ListBuffer.antt =====
-- datachannel/listmessagebuffer.go: the outgoing messages, oldest first. The mutex makes each method
-- one step. Every element has the type T, so the type assertions of the source hold.
pub mod Laws
use ecstoolkit.Base.{
  ℕ, Bool, true, false, List, [], ◌∷◌, ◌++◌, Option, some, none, Result, ok, panic, ◌==◌,
  if◌then◌else◌, length,
}

pub record ListMessageBuffer {ℓ} (T : Type ℓ) : Type ℓ where
  pub messages : List T
  pub capacity : ℕ

module _ {ℓ} {T : Type ℓ} where
  unfoldable pub new_list_message_buffer : ℕ → ListMessageBuffer T
  new_list_message_buffer capacity = record { messages = []; capacity = capacity }

  unfoldable pub front_of : List T → Option T
  front_of [] = none
  front_of (x ∷ xs) = some x

  unfoldable pub front : ListMessageBuffer T → Option T
  unfolding front_of
  front b = front_of b.messages

  -- `b.messages.Remove(b.messages.Front())`: of an empty list `Front` is nil, and `Remove` reads
  -- through it.
  remove_front : List T → Result (List T)
  remove_front [] = panic
  remove_front (x ∷ xs) = ok xs

  unfoldable pub force_push_back : ListMessageBuffer T → T → Result (ListMessageBuffer T)
  unfolding remove_front
  force_push_back b item =
      if length b.messages == b.capacity
      then (elim (remove_front b.messages) [
        | ok rest ↦ ok (record b { messages = rest ++ (item ∷ []) })
        | _ ↦ panic
      ])
      else ok (record b { messages = b.messages ++ (item ∷ []) })

  -- The first element that the predicate holds of, and the list without it.
  remove_first : (T → Bool) → List T → Option T × List T
  remove_first predicate [] = (none, [])
  remove_first predicate (x ∷ xs) =
      let (found, rest) = remove_first predicate xs in
      if predicate x then (some x, xs) else (found, x ∷ rest)

  unfoldable pub remove_if : ListMessageBuffer T → (T → Bool) → Option T × ListMessageBuffer T
  unfolding remove_first
  remove_if b predicate =
      let (found, rest) = remove_first predicate b.messages in (found, record b { messages = rest })
