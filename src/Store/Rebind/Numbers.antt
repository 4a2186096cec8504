-- ===== src/Store/Rebind/Numbers.antt =====
-- internal/store/rebind.go: itoa writes the decimal digits of a number.
use opencode_backend.Base.{
  ℕ, zero, suc, ◌+◌, ◌*◌, ◌-◌, ◌/◌, ◌%◌, ◌^◌, ◌<◌, some, [], ◌∷◌, ◌≡◌, refl, ap, ◌∙◌, arith,
}
use opencode_backend.Automation.Text.{Text}
use opencode_backend.Store.Rebind.{write_digits, itoa}

-- The number that decimal digits write.
unfoldable pub read_digits : ℕ → Text → ℕ
read_digits n [] = n
read_digits n (c ∷ cs) = read_digits (n * 10 + (c - b'0')) cs

suc_lt_one : {n : ℕ} → suc n < 1 → ⊥
suc_lt_one h = omega arith

tenth_lt_power : (n p : ℕ) → suc n < 10 * p → suc n / 10 < p
tenth_lt_power n p h = omega arith

tenth_lt : (n room : ℕ) → suc n < 10 ^ suc room → suc n / 10 < 10 ^ room
tenth_lt n room h = tenth_lt_power n (10 ^ room) (omega arith)

write_digits-read :
    (room n : ℕ) (out : Text)
    → n < 10 ^ room
    → (t : Text) × (write_digits room n out ≡ some t) × (read_digits 0 t ≡ read_digits n out)
unfolding write_digits read_digits
write_digits-read zero zero out h = (out, refl, refl)
write_digits-read zero (suc n) out h = absurd (suc_lt_one h)
write_digits-read (suc room) zero out h = (out, refl, refl)
write_digits-read (suc room) (suc n) out h =
    let rest =
      write_digits-read room (suc n / 10) ((b'0' + suc n % 10) ∷ out) (tenth_lt n room h) in
    (rest.0, rest.1, rest.2 ∙ ap (λ k. read_digits k out) (omega arith))

-- itoa writes each number below 10^16 in decimal: reading its digits gives the number back.
pub itoa-read_digits :
    (n : ℕ) → n < 10 ^ 16 → (t : Text) × (itoa n ≡ some t) × (read_digits 0 t ≡ n)
unfolding itoa read_digits
itoa-read_digits zero h = (b'0' ∷ [], refl, refl)
itoa-read_digits (suc n) h = write_digits-read 16 (suc n) [] h
