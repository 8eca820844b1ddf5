-- ===== src/Memory/Refs/Fresh.antt =====
-- The numbers in the references of one kind, read back from their text.
use Prim.Native.Char.{Char, code}
use Prim.Native.String
use Prim.Native.String.append
use touch_connect.Prelude.{
  ℕ, zero, suc, ◌+◌, ◌-◌, ◌*◌, ◌/◌, ◌%◌, ◌≤◌, ◌<◌, ◌≡◌, refl, sym, ap, ◌∙◌, inl, inr, arith, String,
  ◌&&◌, nat_eq, Bool-cases,
}
use touch_connect.Memory.Refs.{digit, write_digits, decimal6, ref_text, kind_prefix}

digit_value : Char → ℕ
digit_value c = code c - 48

-- The number that a text of digits continues.
read_digits : ℕ → String → ℕ
read_digits n String.[] = n
read_digits n (String.◌∷◌ c s) = read_digits (n * 10 + digit_value c) s

digit_value-digit : (d : ℕ) → d < 10 → digit_value (digit d) ≡ d
unfolding digit_value digit
digit_value-digit zero h = refl
digit_value-digit (suc zero) h = refl
digit_value-digit (suc (suc zero)) h = refl
digit_value-digit (suc (suc (suc zero))) h = refl
digit_value-digit (suc (suc (suc (suc zero)))) h = refl
digit_value-digit (suc (suc (suc (suc (suc zero))))) h = refl
digit_value-digit (suc (suc (suc (suc (suc (suc zero)))))) h = refl
digit_value-digit (suc (suc (suc (suc (suc (suc (suc zero))))))) h = refl
digit_value-digit (suc (suc (suc (suc (suc (suc (suc (suc zero)))))))) h = refl
digit_value-digit (suc (suc (suc (suc (suc (suc (suc (suc (suc zero))))))))) h = refl
digit_value-digit (suc (suc (suc (suc (suc (suc (suc (suc (suc (suc n)))))))))) h =
    absurd (omega arith)

read_digits-write_digits :
    (fuel width n : ℕ) (rest : String)
    → n + width ≤ fuel
    → read_digits 0 (write_digits fuel width n rest) ≡ read_digits n rest
unfolding write_digits read_digits
read_digits-write_digits zero width n rest h = let e : n ≡ 0 = omega arith in rw e
read_digits-write_digits (suc fuel) width n rest h =
    elim (Bool-cases (nat_eq n 0 && nat_eq width 0)) [
      | inl done ↦ let e : n ≡ 0 = ground arith in rw (done, write_digits) (rw e)
      | inr more ↦
          rw (more, write_digits)
            (read_digits-write_digits fuel (width - 1) (n / 10) (String.◌∷◌ (digit (n % 10)) rest)
                (ground arith)
              ∙ last)
    ]
  where
    last : read_digits (n / 10) (String.◌∷◌ (digit (n % 10)) rest) ≡ read_digits n rest
    last = ap (λ k. read_digits k rest) (omega (arith, digit_value-digit (n % 10) (omega arith)))

read_digits-decimal6 : (n : ℕ) → read_digits 0 (decimal6 n) ≡ n
unfolding decimal6 read_digits
read_digits-decimal6 n = read_digits-write_digits (6 + n) 6 n "" (omega arith)

append_cancel : (a s t : String) → String.◌++◌ a s ≡ String.◌++◌ a t → s ≡ t
append_cancel String.[] s t h = sym (append.nil s) ∙ h ∙ append.nil t
append_cancel (String.◌∷◌ c a) s t h =
    append_cancel a s t (cc (append.cons c a s, append.cons c a t))

-- Two references of one kind are equal only if their numbers are.
pub ref_text_injective : (kind : String) (m n : ℕ) → ref_text kind m ≡ ref_text kind n → m ≡ n
unfolding ref_text
ref_text_injective kind m n h =
    sym (read_digits-decimal6 m)
    ∙ ap (read_digits 0) (
        append_cancel "_" _ _ (
          append_cancel (kind_prefix kind) _ _
            (append_cancel "/" _ _ (append_cancel kind _ _ (append_cancel "tc://" _ _ h)))))
    ∙ read_digits-decimal6 n
