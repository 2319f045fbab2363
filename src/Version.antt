-- ===== src/Version.antt =====
-- version/version.go, version/versionutil.go and version/versionvalidator.go: version numbers, and what
-- an agent of a version supports. A text is its bytes; `atoi` is `strconv.Atoi`.
pub mod Order
use ecstoolkit.Base.{
  ℤ, pos, negsuc, ltb_ℤ, eqb_ℤ, Bool, List, [], ◌∷◌, Result, ok, err, panic, invalid_version,
  length_mismatch, ◌>>=◌, ◌==◌, length, if◌then◌else◌, ℕ, not,
}
use ecstoolkit.Buffer.{Bytes}
use ecstoolkit.Message.Types.{codes}

-- `Version`
abbrev pub version : Bytes
version = codes "1.3.0.0"

-- The text goes before the first part of the others.
onto_first : ℕ → List Bytes → List Bytes
onto_first c [] = (c ∷ []) ∷ []
onto_first c (p ∷ ps) = (c ∷ p) ∷ ps

-- `strings.Split(s, ".")`
unfoldable pub split : Bytes → List Bytes
unfolding onto_first
split [] = [] ∷ []
split (c ∷ s) = let rest = split s in if c == 46 then [] ∷ rest else onto_first c rest

unfoldable pub new_version : Bytes → Result (List Bytes)
new_version [] = err invalid_version
new_version (c ∷ s) = ok (split (c ∷ s))

module _ (atoi : Bytes → Result ℤ) where
  -- The loop over the parts; the index of the other version is out of range where that one is shorter.
  unfoldable pub compare_parts : List Bytes → List Bytes → Result ℤ
  compare_parts [] ys = ok (pos 0)
  compare_parts (x ∷ xs) [] = atoi x >>= λ a. panic
  compare_parts (x ∷ xs) (y ∷ ys) =
      let rest = compare_parts xs ys in
      do
        a ← atoi x
        b ← atoi y
        if ltb_ℤ b a then ok (pos 1) else if ltb_ℤ a b then ok (negsuc 0) else rest

  unfoldable pub compare : List Bytes → List Bytes → Result ℤ
  compare this_version other_version =
      if not (length this_version == length other_version)
      then err length_mismatch
      else compare_parts this_version other_version

  unfoldable pub is_agent_version_greater_than_supported_version : Bytes → Bytes → Result Bool
  is_agent_version_greater_than_supported_version agent_version_string supported_version_string = do
    supported_version ← new_version supported_version_string
    agent_version ← new_version agent_version_string
    compare_result ← compare agent_version supported_version
    ok (eqb_ℤ compare_result (pos 1))

  -- The versions of config/config.go
  unfoldable pub does_agent_support_tcp_multiplexing : Bytes → Result Bool
  does_agent_support_tcp_multiplexing agent_version =
      is_agent_version_greater_than_supported_version agent_version (codes "3.0.196.0")

  unfoldable pub does_agent_support_disable_smux_keep_alive : Bytes → Result Bool
  does_agent_support_disable_smux_keep_alive agent_version =
      is_agent_version_greater_than_supported_version agent_version (codes "3.1.1511.0")

  unfoldable pub does_agent_support_terminate_session_flag : Bytes → Result Bool
  does_agent_support_terminate_session_flag agent_version =
      is_agent_version_greater_than_supported_version agent_version (codes "2.3.722.0")
