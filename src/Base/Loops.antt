-- ===== src/Base/Loops.antt =====
-- Counted loops, and searches that stop at the first hit.
use Prim.Native.Nat.{ℕ, zero, suc, ◌+◌, ◌<◌}
use mathlib.Core.Path.{◌≡◌, refl}
use mathlib.Core.Logic.{inl, inr}
use mathlib.Core.Bool.{Bool, true, false, ◌&&◌, ◌||◌}
use mathlib.Core.Option.{Option, none, some}
use native.Mathlib.Omega.{arith}
use old_derecho.Base.Tests.{◌==◌, if◌then◌else◌, Bool-cases, Option-cases}

-- An array of fixed size is the function from its indices.
abbrev pub update {ℓ} : {A : Type ℓ} → (ℕ → A) → ℕ → A → ℕ → A
update f i a j = if i == j then a else f j

-- for (i = 0; i < n; i++) s = body i s
unfoldable pub for_below {ℓ} : {S : Type ℓ} → ℕ → (ℕ → S → S) → S → S
for_below zero body s = s
for_below (suc n) body s = body n (for_below n body s)

pub for_below_inv {ℓ κ} :
    {S : Type ℓ} (P : ℕ → S → Type κ) (body : ℕ → S → S)
    → ((i : ℕ) (s : S) → P i s → P (suc i) (body i s))
    → (n : ℕ) (s : S) → P zero s
    → P n (for_below n body s)
unfolding for_below
for_below_inv P body keep zero s h = h
for_below_inv P body keep (suc n) s h =
    keep n (for_below n body s) (for_below_inv P body keep n s h)

-- for (i = 0; i < n; i++) if (p i) return i; return -1
unfoldable pub first_below : ℕ → (ℕ → Bool) → Option ℕ
first_below zero p = none
first_below (suc n) p = elim (first_below n p) [
  | some i ↦ some i
  | none ↦ if p n then some n else none
]

-- for (i = 0; i < n; i++) if (!p i) return false; return true
unfoldable pub all_below : ℕ → (ℕ → Bool) → Bool
all_below zero p = true
all_below (suc n) p = all_below n p && p n

unfoldable pub any_below : ℕ → (ℕ → Bool) → Bool
any_below zero p = false
any_below (suc n) p = any_below n p || p n

unfoldable pub count_below : ℕ → (ℕ → Bool) → ℕ
count_below zero p = 0
count_below (suc n) p = if p n then count_below n p + 1 else count_below n p

pub all_below_sound : (n : ℕ) (p : ℕ → Bool) (i : ℕ) → all_below n p ≡ true → i < n → p i ≡ true
unfolding all_below
all_below_sound zero p i h lt = absurd (omega arith)
all_below_sound (suc n) p i h lt = ground (arith, all_below_sound n p i)

pub all_below_complete :
    (n : ℕ) (p : ℕ → Bool) → ((i : ℕ) → i < n → p i ≡ true) → all_below n p ≡ true
unfolding all_below
all_below_complete zero p h = refl
all_below_complete (suc n) p h =
    ground (arith, all_below_complete n p (λ i lt. h i (omega arith)), h n (omega arith))

pub any_below_found :
    (n : ℕ) (p : ℕ → Bool) → any_below n p ≡ true → (i : ℕ) × (i < n) × (p i ≡ true)
unfolding any_below
any_below_found zero p h = absurd (ground arith)
any_below_found (suc n) p h = elim (Bool-cases (any_below n p)) [
  | inl e ↦ let r = any_below_found n p e in (r.0, omega arith, r.2)
  | inr e ↦ (n, omega arith, ground arith)
]

pub any_below_none : (n : ℕ) (p : ℕ → Bool) (i : ℕ) → any_below n p ≡ false → i < n → p i ≡ false
unfolding any_below
any_below_none zero p i h lt = absurd (omega arith)
any_below_none (suc n) p i h lt = ground (arith, any_below_none n p i)

pub first_below-none : (n : ℕ) (p : ℕ → Bool) (i : ℕ) → first_below n p ≡ none → i < n → p i ≡ false
unfolding first_below
first_below-none zero p i h lt = absurd (omega arith)
first_below-none (suc n) p i h lt = ground (arith, first_below-none n p i)

pub first_below-some :
    (n : ℕ) (p : ℕ → Bool) (i : ℕ)
    → first_below n p ≡ some i
    → (i < n) × (p i ≡ true) × ((j : ℕ) → j < i → p j ≡ false)
unfolding first_below
first_below-some zero p i h = absurd (ground arith)
first_below-some (suc n) p i h = elim (Option-cases (first_below n p)) [
  | inl e ↦
      let same : n ≡ i = ground arith in
      (omega arith, ground arith, λ j lt. first_below-none n p j e (omega arith))
  | inr (k, e) ↦
      let same : k ≡ i = ground arith in
      let r = first_below-some n p i (ground arith) in (omega arith, r.1, r.2)
]

pub first_below_found :
    (n : ℕ) (p : ℕ → Bool) (i : ℕ)
    → i < n
    → p i ≡ true
    → ((j : ℕ) → j < i → p j ≡ false)
    → first_below n p ≡ some i
first_below_found n p i lt hit below = elim (Option-cases (first_below n p)) [
  | inl e ↦ absurd (ground (arith, first_below-none n p i e lt))
  | inr (k, e) ↦ ground (arith, first_below-some n p k e, below k, (first_below-some n p k e).2 i)
]

pub first_below_ext :
    (n : ℕ) (p q : ℕ → Bool) → ((i : ℕ) → i < n → p i ≡ q i) → first_below n p ≡ first_below n q
unfolding first_below
first_below_ext zero p q h = refl
first_below_ext (suc n) p q h =
    ground (arith, first_below_ext n p q (λ i lt. h i (omega arith)), h n (omega arith))
