-- ===== src/Tests/Numbers.antt =====
-- util/safe.go at concrete values.
use ecstoolkit.Base.{
  ℕ, ◌≡◌, ◌≢◌, ◌^◌, ℤ, pos, negsuc, ok, err, overflow, negative_value, arith, refl,
}
use ecstoolkit.Util.{uint64, defined, safe_uint32, safe_int32, safe_int64}
use ecstoolkit.Util.Bounds.{safe-exact, safe-changes}

safe-exact_example :
    (safe_uint32 (negsuc 4) ≡ err negative_value)
    × (safe_int32 (pos (2 ^ 31)) ≡ err overflow)
    × (safe_int64 uint64 (pos (2 ^ 63)) ≡ err overflow)
safe-exact_example =
    safe-exact (negsuc 4) (pos (2 ^ 31)) (pos (2 ^ 63)) uint64 (omega arith, omega arith)
      (omega arith, omega arith) (omega arith) tt (omega arith, refl)

safe-changes_example :
    ((z : ℤ) × (safe_int32 (negsuc (2 ^ 32)) ≡ ok z) × (z ≢ negsuc (2 ^ 32)))
    × ((z : ℤ) × (safe_int64 (defined uint64) (pos (2 ^ 63)) ≡ ok z) × (z ≢ pos (2 ^ 63)))
    × ((u : ℕ) × (safe_uint32 (pos (2 ^ 63)) ≡ ok u) × (u ≢ 2 ^ 63))
safe-changes_example =
    safe-changes (2 ^ 32) (2 ^ 63) (omega arith) (omega arith) (omega arith) (omega arith)
