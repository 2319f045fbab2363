-- ===== src/Tests/Versions.antt =====
-- The comparison of the versions 3.2 and 3.1, and of 3.2 and 3.
use ecstoolkit.Base.{
  ℤ, pos, ◌≡◌, ◌↔◌, ◌-◌, List, [], ◌∷◌, Result, ok, err, invalid, length_mismatch, refl, arith,
}
use ecstoolkit.Buffer.{Bytes}
use ecstoolkit.Version.{compare}
use ecstoolkit.Version.Order.{Newer, Parses, more, none, compare_iff, compare-length}

-- Of one digit.
abbrev sample_atoi : Bytes → Result ℤ
sample_atoi [] = err invalid
sample_atoi (c ∷ s) = ok (pos (c - 48))

abbrev three_two : List Bytes
three_two = (51 ∷ []) ∷ (50 ∷ []) ∷ []

abbrev three_one : List Bytes
three_one = (51 ∷ []) ∷ (49 ∷ []) ∷ []

three_two-Parses : Parses sample_atoi three_two (pos 3 ∷ pos 2 ∷ [])
three_two-Parses = more _ _ _ _ refl (more _ _ _ _ refl none)

three_one-Parses : Parses sample_atoi three_one (pos 3 ∷ pos 1 ∷ [])
three_one-Parses = more _ _ _ _ refl (more _ _ _ _ refl none)

compare_iff_example :
    (compare sample_atoi three_two three_one ≡ ok (pos 1))
    ↔ Newer (pos 3 ∷ pos 2 ∷ []) (pos 3 ∷ pos 1 ∷ [])
compare_iff_example =
    compare_iff sample_atoi three_two three_one (pos 3 ∷ pos 2 ∷ []) (pos 3 ∷ pos 1 ∷ [])
      three_two-Parses three_one-Parses refl

compare-length_example : compare sample_atoi three_two ((51 ∷ []) ∷ []) ≡ err length_mismatch
compare-length_example = compare-length sample_atoi three_two ((51 ∷ []) ∷ []) (λ e. ground arith)
