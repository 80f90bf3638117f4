-- ===== src/Base/Maps.antt =====
-- `std::map` with integer keys: an association list in the order of its keys.
use mathlib.Core.Path.{◌≡◌, refl, subst, ◌∙◌}
use mathlib.Core.Option.{Option, none, some}
use mathlib.Core.List.{List, [], ◌∷◌}
use native.Mathlib.Omega.{arith}
use mathlib.Core.Bool.{false, ◌||◌}
use old_derecho.Base.Tests.{if◌then◌else◌, is_some, Bool-cases}
use mathlib.Core.Logic.{inl, inr}
use old_derecho.Base.Int.{ℤ, eqb_ℤ, ltb_ℤ, ◌<ℤ◌, eqb_ℤ_iff}

abbrev pub Map : Type 0 → Type 0
Map A = List (ℤ × A)

module _ {A : Type 0} where
  unfoldable pub find : ℤ → Map A → Option A
  find k [] = none
  find k ((j, v) ∷ m) = if eqb_ℤ j k then some v else find k m

  -- `m[k] = v`
  unfoldable pub assign : ℤ → A → Map A → Map A
  assign k v [] = (k, v) ∷ []
  assign k v ((j, w) ∷ m) =
      if eqb_ℤ j k
      then (k, v) ∷ m
      else if ltb_ℤ k j
      then (k, v) ∷ (j, w) ∷ m
      else (j, w) ∷ assign k v m

  -- `m.emplace(k, v)` keeps an entry that is there.
  unfoldable pub emplace : ℤ → A → Map A → Map A
  emplace k v [] = (k, v) ∷ []
  emplace k v ((j, w) ∷ m) =
      if eqb_ℤ j k
      then (j, w) ∷ m
      else if ltb_ℤ k j
      then (k, v) ∷ (j, w) ∷ m
      else (j, w) ∷ emplace k v m

  unfoldable pub erase : ℤ → Map A → Map A
  erase k [] = []
  erase k ((j, w) ∷ m) = if eqb_ℤ j k then m else (j, w) ∷ erase k m

  -- Keys rise.
  abbrev pub Above : ℤ → Map A → Type 0
  Above k [] = Unit {0}
  Above k ((j, v) ∷ m) = (k <ℤ j) × Above j m

  abbrev pub IsOrdered : Map A → Type 0
  IsOrdered [] = Unit {0}
  IsOrdered ((j, v) ∷ m) = Above j m

  pub find-Above : (k j : ℤ) (m : Map A) → Above k m → j <ℤ k → find j m ≡ none
  unfolding find
  find-Above k j [] h lt = refl
  find-Above k j ((i, v) ∷ m) h lt = ground (arith, find-Above i j m h.1)

  pub find-Above_self : (k : ℤ) (m : Map A) → Above k m → find k m ≡ none
  unfolding find
  find-Above_self k [] h = refl
  find-Above_self k ((i, v) ∷ m) h = ground (arith, find-Above i k m h.1)

  pub find-assign :
      (k j : ℤ) (v : A) (m : Map A)
      → find j (assign k v m) ≡ (if eqb_ℤ k j then some v else find j m)
  unfolding find assign
  find-assign k j v [] = refl
  find-assign k j v ((i, w) ∷ m) = ground (arith, find-assign k j v m)

  pub Above-assign : (l k : ℤ) (v : A) (m : Map A) → l <ℤ k → Above l m → Above l (assign k v m)
  unfolding assign
  Above-assign l k v [] h a = (h, tt)
  Above-assign l k v ((i, w) ∷ m) h a = ground (arith, Above-assign i k v m)

  pub assign-IsOrdered : (k : ℤ) (v : A) (m : Map A) → IsOrdered m → IsOrdered (assign k v m)
  unfolding assign
  assign-IsOrdered k v [] a = tt
  assign-IsOrdered k v ((i, w) ∷ m) a = ground (arith, Above-assign i k v m)

  -- Which keys are there after an entry has been put in.
  pub has-assign :
      (k j : ℤ) (v : A) (m : Map A)
      → is_some (find j (assign k v m)) ≡ (eqb_ℤ k j || is_some (find j m))
  unfolding find assign
  has-assign k j v [] = ground arith
  has-assign k j v ((i, w) ∷ m) = ground (arith, has-assign k j v m)

  pub has-emplace :
      (k j : ℤ) (v : A) (m : Map A)
      → is_some (find j (emplace k v m)) ≡ (eqb_ℤ k j || is_some (find j m))
  unfolding find emplace
  has-emplace k j v [] = ground arith
  has-emplace k j v ((i, w) ∷ m) = ground (arith, has-emplace k j v m)

  pub find-emplace_other :
      (k j : ℤ) (v : A) (m : Map A) → eqb_ℤ k j ≡ false → find j (emplace k v m) ≡ find j m
  unfolding find emplace
  find-emplace_other k j v [] ne = ground arith
  find-emplace_other k j v ((i, w) ∷ m) ne = ground (arith, find-emplace_other k j v m ne)

  pub find-emplace_absent :
      (k : ℤ) (v : A) (m : Map A) → find k m ≡ none → find k (emplace k v m) ≡ some v
  unfolding find emplace
  find-emplace_absent k v [] e = ground arith
  find-emplace_absent k v ((i, w) ∷ m) e = ground (arith, find-emplace_absent k v m)

  Above-emplace : (l k : ℤ) (v : A) (m : Map A) → l <ℤ k → Above l m → Above l (emplace k v m)
  unfolding emplace
  Above-emplace l k v [] h a = (h, tt)
  Above-emplace l k v ((i, w) ∷ m) h a = ground (arith, Above-emplace i k v m)

  pub emplace-IsOrdered : (k : ℤ) (v : A) (m : Map A) → IsOrdered m → IsOrdered (emplace k v m)
  unfolding emplace
  emplace-IsOrdered k v [] a = tt
  emplace-IsOrdered k v ((i, w) ∷ m) a = ground (arith, Above-emplace i k v m)

  pub Above-IsOrdered : (k : ℤ) (m : Map A) → Above k m → IsOrdered m
  Above-IsOrdered k [] h = tt
  Above-IsOrdered k ((j, v) ∷ m) h = h.1

  pub find-erase :
      (k j : ℤ) (m : Map A)
      → IsOrdered m
      → find j (erase k m) ≡ (if eqb_ℤ k j then none else find j m)
  unfolding find erase
  find-erase k j [] h = ground arith
  find-erase k j ((i, w) ∷ m) h =
      let rest = find-erase k j m (Above-IsOrdered i m h) in
      elim (Bool-cases (eqb_ℤ i k)) [
        | inl same ↦
            let e : i ≡ k = (eqb_ℤ_iff i k).0 same in
            elim (Bool-cases (eqb_ℤ k j)) [
              | inl here ↦
                  let e' : k ≡ j = (eqb_ℤ_iff k j).0 here in
                  ground (arith, find-Above_self j m (subst (λ x. Above x m) (e ∙ e') h))
              | inr there ↦ ground arith
            ]
        | inr other ↦ ground (arith, rest)
      ]
