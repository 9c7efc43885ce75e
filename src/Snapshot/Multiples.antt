-- ===== src/Snapshot/Multiples.antt =====
-- internal/snapshot/snapshot.go: a snapshot is due where a multiple of the interval is crossed.
use native.Mathlib.Nat.{le-div_iff_mul-le, div-lt_iff_lt-mul, div-mul-le_self}
use packtrail.Prelude.{
  ℕ, ℤ, pos, negsuc, zero, suc, ◌*◌, ◌/◌, ◌≤◌, ◌<◌, ◌≡◌, ◌↔◌, refl, sym, ap, subst, pos_part, true,
  ltb, ltb→lt, arith,
}
use packtrail.Snapshot.{interval, due}

-- a multiple of m that is above before, and at most after
abbrev pub Crosses : ℕ → ℕ → ℕ → Type 0
Crosses m before after = (k : ℕ) × (before < k * m) × (k * m ≤ after)

ltb_of_lt : (a b : ℕ) → a < b → ltb a b ≡ true
ltb_of_lt a b h = ground arith

ltb-Crosses :
    (n before after : ℕ)
    → (ltb (before / suc n) (after / suc n) ≡ true) ↔ Crosses (suc n) before after
ltb-Crosses n before after = (
  λ h. (
    after / suc n,
    (div-lt_iff_lt-mul (omega arith)).0 (ltb→lt (before / suc n) (after / suc n) h),
    div-mul-le_self after (suc n),
  ),
  λ (k, above, below).
      let low : before / suc n < k = (div-lt_iff_lt-mul (omega arith)).1 above in
      let high : k ≤ after / suc n = (le-div_iff_mul-le (omega arith)).1 below in
      ltb_of_lt (before / suc n) (after / suc n) (omega arith),
)

-- For every interval that the store is made with: after the events went from `before` to `after`, a
-- snapshot is due exactly if the interval kept is positive and one of its multiples is above
-- `before` and at most `after`.
pub due_iff :
    (every : ℤ) (before after : ℕ)
    → (due (interval every) before after ≡ true)
      ↔ ((n : ℕ) × (interval every ≡ pos (suc n)) × Crosses (suc n) before after)
unfolding interval due
due_iff (pos zero) before after = (
  λ h. (99, refl, (ltb-Crosses 99 before after).0 h),
  λ (n, e, c).
      (ltb-Crosses 99 before after).1
        (subst (λ (j : ℕ). Crosses j before after) (ap pos_part (sym e)) c),
)
due_iff (pos (suc m)) before after = (
  λ h. (m, refl, (ltb-Crosses m before after).0 h),
  λ (n, e, c).
      (ltb-Crosses m before after).1
        (subst (λ (j : ℕ). Crosses j before after) (ap pos_part (sym e)) c),
)
due_iff (negsuc m) before after = (λ h. absurd (cc), λ (n, e, c). absurd (cc))
