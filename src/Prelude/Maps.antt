-- ===== src/Prelude/Maps.antt =====
-- `std::map` as an association list in key order. A key has an equality test and an order test.
use Prim.Native.Nat.{ℕ}
use mathlib.Core.Path.{◌≡◌, refl}
use mathlib.Core.Logic.{◌↔◌}
use mathlib.Core.Bool.{Bool, true}
use mathlib.Core.List.{List, [], ◌∷◌}
use mathlib.Core.Option.{Option, none, some}
use native.Mathlib.Omega.{arith}
use vm.Prelude.Tests.{if◌then◌else◌, ltb, nat_beq, nat_beq_iff}
use vm.Prelude.Lists.{All}

pub record Key {ℓ} (K : Type ℓ) : Type ℓ where
  pub beq : K → K → Bool
  pub before : K → K → Bool
  pub beq_iff : (a b : K) → (beq a b ≡ true) ↔ (a ≡ b)

instance abbrev pub nat_key : Key ℕ
nat_key = record { beq = nat_beq; before = ltb; beq_iff = nat_beq_iff }

infix 50 ◌==◌
abbrev pub ◌==◌ {ℓ} : {K : Type ℓ} ⦃k : Key K⦄ → K → K → Bool
◌==◌ ⦃k⦄ = k.beq

-- A map is a list of entries, the smallest key first.
abbrev pub Map : Type 0 → Type 0 → Type 0
Map K V = List (K × V)

pub beq_refl {ℓ} : {K : Type ℓ} ⦃key : Key K⦄ (k : K) → (k == k) ≡ true
beq_refl ⦃key⦄ k = (key.beq_iff k k).1 refl

abbrev pub map_option {ℓ κ} : {A : Type ℓ} {B : Type κ} → (A → B) → Option A → Option B
map_option f none = none
map_option f (some v) = some (f v)

module _ {K V : Type 0} ⦃key : Key K⦄ where
  -- `m.find(k)`.
  unfoldable pub find : K → Map K V → Option V
  find k [] = none
  find k ((j, v) ∷ m) = if j == k then some v else find k m

  -- `m[k] = v`.
  unfoldable pub insert : K → V → Map K V → Map K V
  insert k v [] = (k, v) ∷ []
  insert k v ((j, w) ∷ m) =
      let later = (j, w) ∷ insert k v m in
      if j == k then (k, v) ∷ m else (if key.before k j then (k, v) ∷ (j, w) ∷ m else later)

  -- `m.erase(k)`: keys are unique, so no entry of that key is left.
  unfoldable pub erase : K → Map K V → Map K V
  erase k [] = []
  erase k ((j, v) ∷ m) = let rest = erase k m in if j == k then rest else (j, v) ∷ rest

  -- A write through the pointer that the map holds: the entry is changed in place.
  unfoldable pub modify : K → (V → V) → Map K V → Map K V
  modify k f [] = []
  modify k f ((j, v) ∷ m) = (if j == k then (j, f v) else (j, v)) ∷ modify k f m

  pub find-insert :
      (k j : K) (v : V) (m : Map K V)
      → find j (insert k v m) ≡ (if k == j then some v else find j m)
  unfolding find insert
  find-insert k j v [] = refl
  find-insert k j v ((i, w) ∷ m) =
      ground (arith, key.beq_iff k j, key.beq_iff i k, key.beq_iff i j, find-insert k j v m)

  pub find-insert_self : (k : K) (v : V) (m : Map K V) → find k (insert k v m) ≡ some v
  find-insert_self k v m = rw (find-insert k k v m, beq_refl k)

  pub find-erase :
      (k j : K) (m : Map K V) → find j (erase k m) ≡ (if k == j then none else find j m)
  unfolding find erase
  find-erase k j [] = ground arith
  find-erase k j ((i, w) ∷ m) =
      ground (arith, key.beq_iff k j, key.beq_iff i k, key.beq_iff i j, find-erase k j m)

  pub find-erase_self : (k : K) (m : Map K V) → find k (erase k m) ≡ none
  find-erase_self k m = rw (find-erase k k m, beq_refl k)

  pub find-modify :
      (k j : K) (f : V → V) (m : Map K V)
      → find j (modify k f m) ≡ (if k == j then map_option f (find j m) else find j m)
  unfolding find modify
  find-modify k j f [] = ground arith
  find-modify k j f ((i, w) ∷ m) =
      ground (arith, key.beq_iff k j, key.beq_iff i k, key.beq_iff i j, find-modify k j f m)

  -- A key that is not there is not written.
  pub modify_none : (k : K) (f : V → V) (m : Map K V) → find k m ≡ none → modify k f m ≡ m
  unfolding find modify
  modify_none k f [] e = refl
  modify_none k f ((j, w) ∷ m) e = ground (arith, modify_none k f m)

  -- A predicate of all the values is kept by every operation and holds of what is found.
  module _ {κ} (P : V → Type κ) where
    abbrev pub Values : Map K V → Type κ
    Values = All (λ e. P e.1)

    pub find-Values : (k : K) (m : Map K V) {v : V} → Values m → find k m ≡ some v → P v
    unfolding find
    find-Values k [] h e = absurd (ground arith)
    find-Values k ((j, w) ∷ m) h e = grind (arith, find-Values k m h.1)

    pub insert-Values : (k : K) (v : V) (m : Map K V) → P v → Values m → Values (insert k v m)
    unfolding insert
    insert-Values k v [] p h = (p, tt)
    insert-Values k v ((j, w) ∷ m) p h = ground (arith, insert-Values k v m p h.1)

    pub erase-Values : (k : K) (m : Map K V) → Values m → Values (erase k m)
    unfolding erase
    erase-Values k [] h = h
    erase-Values k ((j, w) ∷ m) h = ground (arith, erase-Values k m h.1)

    pub modify-Values :
        (k : K) (f : V → V) (m : Map K V)
        → ((v : V) → P v → P (f v))
        → Values m
        → Values (modify k f m)
    unfolding modify
    modify-Values k f [] keep h = h
    modify-Values k f ((j, w) ∷ m) keep h = ground (arith, keep w h.0, modify-Values k f m keep h.1)
