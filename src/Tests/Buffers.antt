-- ===== src/Tests/Buffers.antt =====
-- The buffer of incoming messages at concrete contents.
use ecstoolkit.Base.{ℕ, refl, [], ◌∷◌, ℤ, pos, arith}
use ecstoolkit.DataChannel.State.{int64_comparable}
use ecstoolkit.DataChannel.MapBuffer.{MapMessageBuffer, set_unless_full, remove, lookup}
use ecstoolkit.DataChannel.MapBuffer.Laws.{IsValid, change-IsValid}

-- Two of three places are taken.
abbrev two_of_three : MapMessageBuffer ℤ ℕ
two_of_three = record { messages = (pos 1, 10) ∷ (pos 4, 40) ∷ []; capacity = 3 }

two_of_three-IsValid : IsValid two_of_three
unfolding lookup
two_of_three-IsValid = record { distinct = (refl, (refl, tt)); bounded = omega arith }

change-IsValid_example :
    IsValid (set_unless_full two_of_three (pos 2) 20).1 × IsValid (remove two_of_three (pos 2)).1
change-IsValid_example = change-IsValid two_of_three (pos 2) 20 two_of_three-IsValid
