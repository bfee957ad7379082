-- ===== src/Base/Table.antt =====
-- A JavaScript `Map`: its entries in the order of their insertion.
use Prim.Native.Nat.{ℕ, suc, ◌+◌, ◌≤◌, ◌<◌}
use mathlib.Core.Path.{◌≡◌, refl, sym, ap, subst, ◌∙◌}
use mathlib.Core.Logic.{◌↔◌, inl, inr}
use mathlib.Core.Bool.{Bool, true, false, ◌&&◌}
use mathlib.Core.Option.{Option, none, some}
use mathlib.Core.List.{List, [], ◌∷◌}
use native.Mathlib.Omega.{arith}
use iwa_brook_quic.Base.Tests.{if◌then◌else◌, either_way, ==_iff, Bool-cases, ◌==◌ as same_number}
use iwa_brook_quic.Base.Lists.{length, All}

-- Keys with a Boolean equality.
pub record Eq {ℓ} (A : Type ℓ) : Type ℓ where
  pub beq : A → A → Bool
  pub beq_iff : (a b : A) → (beq a b ≡ true) ↔ (a ≡ b)

instance abbrev pub number_eq : Eq ℕ
number_eq = record { beq = same_number; beq_iff = ==_iff }

-- Texts, as lists of code units.
abbrev same_text : List ℕ → List ℕ → Bool
same_text [] [] = true
same_text [] (y ∷ ys) = false
same_text (x ∷ xs) [] = false
same_text (x ∷ xs) (y ∷ ys) = same_number x y && same_text xs ys

same_text_eq : (xs ys : List ℕ) → same_text xs ys ≡ true → xs ≡ ys
same_text_eq [] [] h = refl
same_text_eq [] (y ∷ ys) h = cc
same_text_eq (x ∷ xs) [] h = cc
same_text_eq (x ∷ xs) (y ∷ ys) h = ground (arith, same_text_eq xs ys)

same_text_refl : (xs : List ℕ) → same_text xs xs ≡ true
same_text_refl [] = refl
same_text_refl (x ∷ xs) = ground (arith, same_text_refl xs)

pub text_iff : (xs ys : List ℕ) → (same_text xs ys ≡ true) ↔ (xs ≡ ys)
text_iff xs ys = (same_text_eq xs ys, λ h. ap (λ zs. same_text xs zs) (sym h) ∙ same_text_refl xs)

instance abbrev pub text_eq : Eq (List ℕ)
text_eq = record { beq = same_text; beq_iff = text_iff }

module _ {ℓ} {K : Type ℓ} ⦃e : Eq K⦄ where
  abbrev pub same : K → K → Bool
  same = e.beq

  pub same_self : (k : K) → same k k ≡ true
  same_self k = (e.beq_iff k k).1 refl

  same_swap : (k i j : K) → same k i ≡ true → same k j ≡ same i j
  same_swap k i j h = ap (λ x. same x j) ((e.beq_iff k i).0 h)

  same_sides : (k i j : K) → same k j ≡ true → same i j ≡ true → same k i ≡ true
  same_sides k i j h h' = (e.beq_iff k i).1 ((e.beq_iff k j).0 h ∙ sym ((e.beq_iff i j).0 h'))

pub some_inj {κ} : {V : Type κ} (v w : V) → some v ≡ some w → v ≡ w
some_inj v w e = cc

module _ {ℓ κ} {K : Type ℓ} {V : Type κ} ⦃e : Eq K⦄ where
  unfoldable pub lookup : K → List (K × V) → Option V
  lookup j [] = none
  lookup j ((k, v) ∷ m) = if same k j then some v else lookup j m

  unfoldable pub delete : K → List (K × V) → List (K × V)
  delete j [] = []
  delete j ((k, v) ∷ m) = if same k j then delete j m else (k, v) ∷ delete j m

  -- A key that is there keeps its place.
  unfoldable pub insert : K → V → List (K × V) → List (K × V)
  insert j w [] = (j, w) ∷ []
  insert j w ((k, v) ∷ m) = if same k j then (k, w) ∷ m else (k, v) ∷ insert j w m

  unfoldable pub has : K → List (K × V) → Bool
  has j [] = false
  has j ((k, v) ∷ m) = if same k j then true else has j m

  -- `delete(keys().next().value)`
  unfoldable pub drop_oldest : List (K × V) → List (K × V)
  drop_oldest [] = []
  drop_oldest ((k, v) ∷ m) = delete k ((k, v) ∷ m)

  pub length-delete : (j : K) (m : List (K × V)) → length (delete j m) ≤ length m
  unfolding delete
  length-delete j [] = omega arith
  length-delete j ((k, v) ∷ m) = ground (arith, length-delete j m)

  pub length-delete_lt :
      (j : K) (m : List (K × V)) → has j m ≡ true → length (delete j m) < length m
  unfolding delete has
  length-delete_lt j [] h = cc
  length-delete_lt j ((k, v) ∷ m) h = ground (arith, length-delete j m, length-delete_lt j m)

  pub length-insert : (j : K) (w : V) (m : List (K × V)) → length (insert j w m) ≤ length m + 1
  unfolding insert
  length-insert j w [] = omega arith
  length-insert j w ((k, v) ∷ m) = ground (arith, length-insert j w m)

  pub length-insert_present :
      (j : K) (w : V) (m : List (K × V)) → has j m ≡ true → length (insert j w m) ≡ length m
  unfolding insert has
  length-insert_present j w [] h = cc
  length-insert_present j w ((k, v) ∷ m) h = ground (arith, length-insert_present j w m)

  pub length-drop_oldest :
      (m : List (K × V)) (n : ℕ) → length m ≤ suc n → length (drop_oldest m) ≤ n
  unfolding drop_oldest delete
  length-drop_oldest [] n h = omega arith
  length-drop_oldest ((k, v) ∷ m) n h = ground (arith, same_self k, length-delete k m)

  pub has-lookup : (j : K) (m : List (K × V)) (v : V) → lookup j m ≡ some v → has j m ≡ true
  unfolding lookup has
  has-lookup j [] w h = cc
  has-lookup j ((k, v) ∷ m) w h = ground (arith, has-lookup j m w)

  pub All-delete {μ} :
      (P : K × V → Type μ) (j : K) (m : List (K × V)) → All P m → All P (delete j m)
  unfolding delete
  All-delete P j [] h = tt
  All-delete P j ((k, v) ∷ m) h =
      either_way (All P) (same k j) (delete j m) ((k, v) ∷ delete j m) (λ _. All-delete P j m h.1)
        (λ _. (h.0, All-delete P j m h.1))

  pub All-insert {μ} :
      (P : K × V → Type μ) (j : K) (w : V) (m : List (K × V))
      → P (j, w)
      → ((k : K) (v : V) → same k j ≡ true → P (j, w) → P (k, w))
      → All P m
      → All P (insert j w m)
  unfolding insert
  All-insert P j w [] new move h = (new, tt)
  All-insert P j w ((k, v) ∷ m) new move h =
      either_way (All P) (same k j) ((k, w) ∷ m) ((k, v) ∷ insert j w m)
        (λ e. (move k v e new, h.1)) (λ _. (h.0, All-insert P j w m new move h.1))

  pub All-drop_oldest {μ} :
      (P : K × V → Type μ) (m : List (K × V)) → All P m → All P (drop_oldest m)
  unfolding drop_oldest
  All-drop_oldest P [] h = tt
  All-drop_oldest P ((k, v) ∷ m) h = All-delete P k ((k, v) ∷ m) h

  -- What is looked up is there, under an equal key.
  pub All-lookup {μ} :
      (P : K × V → Type μ) (j : K) (v : V) (m : List (K × V))
      → lookup j m ≡ some v
      → All P m
      → (k : K) × (same k j ≡ true) × P (k, v)
  unfolding lookup
  All-lookup P j v [] e h = cc
  All-lookup P j v ((k, w) ∷ m) e h = elim (Bool-cases (same k j)) [
    | inl here ↦ (k, here, subst (λ x. P (k, x)) (some_inj w v (rw here at e)) h.0)
    | inr behind ↦ All-lookup P j v m (rw behind at e) h.1
  ]

  pub has-none : (j : K) (m : List (K × V)) → lookup j m ≡ none → has j m ≡ false
  unfolding lookup has
  has-none j [] h = refl
  has-none j ((k, v) ∷ m) h = ground (arith, has-none j m)

  pub lookup-insert :
      (i j : K) (w : V) (m : List (K × V))
      → lookup j (insert i w m) ≡ (if same i j then some w else lookup j m)
  unfolding lookup insert
  lookup-insert i j w [] = refl
  lookup-insert i j w ((k, v) ∷ m) =
      ground (arith, lookup-insert i j w m, same_swap k i j, same_sides k i j)

  pub lookup-delete :
      (i j : K) (m : List (K × V)) → lookup j (delete i m) ≡ (if same i j then none else lookup j m)
  unfolding lookup delete
  lookup-delete i j [] = ground arith
  lookup-delete i j ((k, v) ∷ m) =
      ground (arith, lookup-delete i j m, same_swap k i j, same_sides k i j)

  pub has-delete :
      (i j : K) (m : List (K × V)) → has j (delete i m) ≡ (if same i j then false else has j m)
  unfolding has delete
  has-delete i j [] = ground arith
  has-delete i j ((k, v) ∷ m) = ground (arith, has-delete i j m, same_swap k i j, same_sides k i j)

  pub has-insert :
      (i j : K) (w : V) (m : List (K × V))
      → has j (insert i w m) ≡ (if same i j then true else has j m)
  unfolding has insert
  has-insert i j w [] = refl
  has-insert i j w ((k, v) ∷ m) =
      ground (arith, has-insert i j w m, same_swap k i j, same_sides k i j)

  pub delete-absent : (j : K) (m : List (K × V)) → has j m ≡ false → delete j m ≡ m
  unfolding delete has
  delete-absent j [] h = refl
  delete-absent j ((k, v) ∷ m) h = ground (arith, delete-absent j m)

  pub delete-insert :
      (j : K) (w : V) (m : List (K × V)) → has j m ≡ false → delete j (insert j w m) ≡ m
  unfolding delete insert has
  delete-insert j w [] h = ground (arith, same_self j)
  delete-insert j w ((k, v) ∷ m) h = ground (arith, same_self j, delete-insert j w m)

  pub insert-insert :
      (j : K) (v w : V) (m : List (K × V)) → insert j w (insert j v m) ≡ insert j w m
  unfolding insert
  insert-insert j v w [] = ground (arith, same_self j)
  insert-insert j v w ((k, x) ∷ m) = ground (arith, same_self j, insert-insert j v w m)

  pub lookup-insert_same : (j : K) (w : V) (m : List (K × V)) → lookup j (insert j w m) ≡ some w
  lookup-insert_same j w m = lookup-insert j j w m ∙ ground (arith, same_self j)

  pub same-lookup : (i j : K) (m : List (K × V)) → same i j ≡ true → lookup i m ≡ lookup j m
  same-lookup i j m h = ap (λ k. lookup k m) ((e.beq_iff i j).0 h)

  pub same-has : (i j : K) (m : List (K × V)) → same i j ≡ true → has i m ≡ has j m
  same-has i j m h = ap (λ k. has k m) ((e.beq_iff i j).0 h)

  -- What is there after three deletions was there before, under a key other than the first.
  pub has-delete_before :
      (a b c j : K) (m : List (K × V))
      → has j (delete a (delete b (delete c m))) ≡ true
      → (same c j ≡ false) × (has j m ≡ true)
  has-delete_before a b c j m h =
      let e1 = has-delete a j (delete b (delete c m)) in
      let e2 = has-delete b j (delete c m) in
      let e3 = has-delete c j m in (ground (arith, h, e1, e2, e3), ground (arith, h, e1, e2, e3))
