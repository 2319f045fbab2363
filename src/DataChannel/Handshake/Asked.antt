-- ===== src/DataChannel/Handshake/Asked.antt =====
-- The session type that the actions of a handshake request ask for.
use mathlib.Core.Path.{subst}
use ecstoolkit.Base.{
  sym, Option, Error, caught, ◌≡◌, refl, true, false, List, [], ◌∷◌, Result, ok, err, if◌then◌else◌,
  eq_bytes, arith, panic, blocked, eq_bytes_iff, Bool-cases, inl, inr,
}
use ecstoolkit.Buffer.{Bytes}
use ecstoolkit.Message.Handshake.{
  kms_encryption, session_type_action, RequestedClientAction, SessionTypeRequest,
  ProcessedClientAction,
}
use ecstoolkit.DataChannel.State.{
  State, DataChannel, Env, shell_plugin_name, port_plugin_name, interactive_commands_plugin_name,
  non_interactive_commands_plugin_name,
}
use ecstoolkit.DataChannel.State.Monad.{M, pure, continue}
use ecstoolkit.DataChannel.Handshake.{
  process_session_type_handshake_action, process_kms_encryption_handshake_action, kms_done,
  data_key, process_action, process_actions, choose_session_type, set_session_type,
  session_type_done,
}

-- The plugin for a session type, and nothing for one that there is none for.
abbrev pub plugin_of : Bytes → Bytes
plugin_of kind =
    if eq_bytes kind shell_plugin_name
    then shell_plugin_name
    else if eq_bytes kind interactive_commands_plugin_name
    then shell_plugin_name
    else if eq_bytes kind non_interactive_commands_plugin_name
    then shell_plugin_name
    else if eq_bytes kind port_plugin_name
    then port_plugin_name
    else []

-- What the channel knows of its session type.
pub record Knows {F : Type 0} (kind : Bytes) (c : DataChannel F) : Type 0 where
  pub session_type : c.session_type ≡ kind
  pub nothing_set : c.is_session_type_set ≡ []

module _ {W F : Type 0} (env : Env W F) where
  -- The session type that an action leaves: the plugin of the type that it asks for, if it asks for one that
  -- can be read and has a plugin, and otherwise the one before.
  abbrev pub chosen : Bytes → Result SessionTypeRequest → Bytes
  chosen known (ok t) =
      if eq_bytes (plugin_of t.session_type) [] then known else plugin_of t.session_type
  chosen known _ = known

  abbrev pub left_by : Bytes → RequestedClientAction → Bytes
  left_by known a =
      if eq_bytes a.action_type session_type_action
      then chosen known (env.unmarshal_session_type a.action_parameters)
      else known

  -- The session type after all the actions, in their order.
  unfoldable pub asked_for : Bytes → List RequestedClientAction → Bytes
  asked_for known [] = known
  asked_for known (a ∷ as') = asked_for (left_by known a) as'

  kms-Knows :
      (known : Bytes) (a : RequestedClientAction) (s : State W F)
      → eq_bytes a.action_type kms_encryption ≡ true
      → Knows known s.channel
      → Knows known (process_action env a s).1.channel
  unfolding process_action process_kms_encryption_handshake_action kms_done data_key
  kms-Knows known a s q k = rw q (record {
    session_type = ground (arith, k.session_type);
    nothing_set = ground (arith, k.nothing_set);
  })

  choose-Knows :
      (known : Bytes) (t : SessionTypeRequest) (s : State W F)
      → Knows known s.channel
      → Knows (chosen known (ok t)) (choose_session_type env t s).1.channel
  unfolding choose_session_type set_session_type
  choose-Knows known t s k = record {
    session_type = ground (arith, k.session_type, eq_bytes_iff t.session_type port_plugin_name);
    nothing_set = ground (arith, k.nothing_set);
  }

  read-Knows :
      (known : Bytes) (r : Result SessionTypeRequest) (s : State W F)
      → Knows known s.channel
      → Knows (chosen known r) (continue r (choose_session_type env) s).1.channel
  read-Knows known (ok t) s k = choose-Knows known t s k
  read-Knows known (err e) s k = k
  read-Knows known panic s k = k
  read-Knows known blocked s k = k

  -- What comes of an error does not change the state.
  noted :
      (r : Result (Unit {0})) (f : Option Error → ProcessedClientAction) (s : State W F)
      → (continue (caught r) (λ e. pure (f e)) s).1 ≡ s
  noted (ok x) f s = refl
  noted (err e) f s = refl
  noted panic f s = refl
  noted blocked f s = refl

  typed-Knows :
      (known : Bytes) (a : RequestedClientAction) (s : State W F)
      → eq_bytes a.action_type kms_encryption ≡ false
      → Knows known s.channel
      → Knows (left_by known a) (process_action env a s).1.channel
  unfolding process_action process_session_type_handshake_action
  typed-Knows known a s q k = elim (Bool-cases (eq_bytes a.action_type session_type_action)) [
    | inl e ↦
        let r = env.unmarshal_session_type a.action_parameters in
        let m = continue r (choose_session_type env) s in
        rw (q, e)
          (subst (λ (t : State W F). Knows (chosen known r) t.channel)
            (sym (noted m.0 (session_type_done env a.action_type) m.1)) (read-Knows known r s k))
    | inr e ↦ rw (q, e) k
  ]

  action-Knows :
      (known : Bytes) (a : RequestedClientAction) (s : State W F)
      → Knows known s.channel
      → Knows (left_by known a) (process_action env a s).1.channel
  action-Knows known a s k = elim (Bool-cases (eq_bytes a.action_type kms_encryption)) [
    | inl e ↦
        let t : a.action_type ≡ kms_encryption = (eq_bytes_iff a.action_type kms_encryption).0 e in
        let q : eq_bytes a.action_type session_type_action ≡ false = rw t refl in
        rw q (kms-Knows known a s e k)
    | inr e ↦ typed-Knows known a s e k
  ]

  -- A chain that gave a result gave one at its first link, and went on from there.
  pub linked :
      {A B : Type 0} (P : State W F → Type 0) (r : Result A) (f : A → M W F B) (s : State W F)
      (b : B)
      → (continue r f s).0 ≡ ok b
      → ((x : A) → r ≡ ok x → (f x s).0 ≡ ok b → P (f x s).1)
      → P (continue r f s).1
  linked P (ok x) f s b e h = h x refl e
  linked P (err x) f s b e h = absurd (ground arith)
  linked P panic f s b e h = absurd (ground arith)
  linked P blocked f s b e h = absurd (ground arith)

  pub actions-Knows :
      (known : Bytes) (as' : List RequestedClientAction) (s : State W F)
      (ps : List ProcessedClientAction)
      → (process_actions env as' s).0 ≡ ok ps
      → Knows known s.channel
      → Knows (asked_for known as') (process_actions env as' s).1.channel
  unfolding process_actions asked_for
  actions-Knows known [] s ps e k = k
  actions-Knows known (a ∷ as') s ps e k =
      let known' = left_by known a in
      let P = λ (t : State W F). Knows (asked_for known' as') t.channel in
      let t = (process_action env a s).1 in
      linked P (process_action env a s).0 _ t ps e (λ p _ e'.
        linked P (process_actions env as' t).0 _ (process_actions env as' t).1 ps e'
          (λ ps' e'' _. actions-Knows known' as' t ps' e'' (action-Knows known a s k)))
