-- ===== src/Microlink/JsonScan/Tests.antt =====
-- Runs of the lookups.
use esp32_remote_boot.Prelude.{
  ℕ, zero, suc, ◌≡◌, ◌⊎◌, ◌≤◌, inl, inr, refl, some, [], ◌∷◌, ◌++◌, Bytes, value, arith,
}
use esp32_remote_boot.Microlink.JsonScan.{
  skip_space, skip_value_depth, skip_scalar, literal, skip_number, skip_digits,
}
use esp32_remote_boot.Microlink.JsonScan.Printed.{IsKey, IsValue}

abbrev seven : Bytes
seven = b'7' ∷ []

seven-scans :
    (left c : ℕ) (behind : Bytes)
    → 32 ≤ left
    → left ≤ 33
    → (c ≡ b',') ⊎ (c ≡ b'}')
    → skip_value_depth left (seven ++ (c ∷ behind)) ≡ value (some (c ∷ behind))
unfolding skip_value_depth skip_space skip_scalar literal skip_number skip_digits
seven-scans zero c behind h l e = absurd (omega arith)
seven-scans (suc left) c behind h l (inl e) = rw e refl
seven-scans (suc left) c behind h l (inr e) = rw e refl

seven-IsValue : IsValue seven
seven-IsValue = record {
  first = b'7';
  rest = [];
  starts = refl;
  no_space = refl;
  scans = seven-scans;
}

abbrev key : Bytes
key = b'a' ∷ []

key-IsKey : IsKey key
key-IsKey = (omega arith, (λ e. absurd (omega (arith, e))), (λ e. absurd (omega (arith, e))), tt)
