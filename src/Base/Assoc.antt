-- ===== src/Base/Assoc.antt =====
-- A Go map with string keys, as an association list. Where the code ranges over a map, whose
-- order is not fixed, the model goes through the list: each order of a list stands for one run.
use Prim.Native.Nat.{◌≤◌}
use mathlib.Core.Path.{◌≡◌, refl, transport}
use mathlib.Core.Bool.{true, false}
use mathlib.Core.Option.{Option, none, some}
use mathlib.Core.List.{List, [], ◌∷◌}
use native.Mathlib.Omega.{arith}
use reticulum_forwarding_ser.Base.Tests.{some-injective, if◌then◌else◌}
use reticulum_forwarding_ser.Base.Lists.{length, All}
use reticulum_forwarding_ser.Base.Bytes.{Bytes, ◌=ᵇ◌, beq_iff, beq_refl}

module _ {ℓ} {V : Type ℓ} where
  -- `m[k]`, with `none` for a missing key.
  unfoldable pub lookup : Bytes → List (Bytes × V) → Option V
  lookup k [] = none
  lookup k ((j, v) ∷ m) = if j =ᵇ k then some v else lookup k m

  -- `m[k] = v`: the entry is replaced, or a new one is added.
  unfoldable pub insert : Bytes → V → List (Bytes × V) → List (Bytes × V)
  insert k v [] = (k, v) ∷ []
  insert k v ((j, w) ∷ m) = if j =ᵇ k then (k, v) ∷ m else (j, w) ∷ insert k v m

  -- `delete(m, k)`
  unfoldable pub delete : Bytes → List (Bytes × V) → List (Bytes × V)
  delete k [] = []
  delete k ((j, v) ∷ m) = let rest = delete k m in if j =ᵇ k then rest else (j, v) ∷ rest

  pub lookup-insert :
      (k j : Bytes) (v : V) (m : List (Bytes × V))
      → lookup j (insert k v m) ≡ (if k =ᵇ j then some v else lookup j m)
  unfolding lookup insert
  lookup-insert k j v [] = refl
  lookup-insert k j v ((i, w) ∷ m) =
      ground (arith, beq_iff k j, beq_iff i k, beq_iff i j, lookup-insert k j v m)

  pub lookup-inserted :
      (k : Bytes) (v : V) (m : List (Bytes × V)) → lookup k (insert k v m) ≡ some v
  lookup-inserted k v m = ground (arith, lookup-insert k k v m, beq_refl k)

  pub lookup-delete :
      (k j : Bytes) (m : List (Bytes × V))
      → lookup j (delete k m) ≡ (if k =ᵇ j then none else lookup j m)
  unfolding lookup delete
  lookup-delete k j [] = ground arith
  lookup-delete k j ((i, w) ∷ m) =
      ground (arith, beq_iff k j, beq_iff i k, beq_iff i j, lookup-delete k j m)

  pub length-delete-le : (k : Bytes) (m : List (Bytes × V)) → length (delete k m) ≤ length m
  unfolding delete
  length-delete-le k [] = omega arith
  length-delete-le k ((j, v) ∷ m) = ground (arith, length-delete-le k m)

module _ {ℓ κ} {V : Type ℓ} (P : Bytes × V → Type κ) where
  pub All-insert :
      (k : Bytes) (v : V) (m : List (Bytes × V)) → P (k, v) → All P m → All P (insert k v m)
  unfolding insert
  All-insert k v [] p a = (p, tt)
  All-insert k v ((j, w) ∷ m) p (a, b) =
      elim (j =ᵇ k) as (λ t. All P (if t then (k, v) ∷ m else (j, w) ∷ insert k v m)) [
        | true ↦ (p, b)
        | false ↦ (a, All-insert k v m p b)
      ]

  pub All-delete : (k : Bytes) (m : List (Bytes × V)) → All P m → All P (delete k m)
  unfolding delete
  All-delete k [] a = tt
  All-delete k ((j, v) ∷ m) (a, b) =
      elim (j =ᵇ k) as (λ t. All P (if t then delete k m else (j, v) ∷ delete k m)) [
        | true ↦ All-delete k m b
        | false ↦ (a, All-delete k m b)
      ]

  pub All-lookup :
      (k : Bytes) {v : V} (m : List (Bytes × V)) → lookup k m ≡ some v → All P m → P (k, v)
  unfolding lookup
  All-lookup k [] h a = absurd cc
  All-lookup k {v} ((j, w) ∷ m) h (a, b) =
      elim (j =ᵇ k)
          as (λ t. (j =ᵇ k) ≡ t → (if t then some w else lookup k m) ≡ some v → P (k, v)) [
            | true ↦ λ e q. transport (λ i. P ((beq_iff j k).0 e i, some-injective q i)) a
            | false ↦ λ e q. All-lookup k m q b
          ]
        refl h
