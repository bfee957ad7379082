-- ===== src/Dispatcher/Rule.antt =====
-- Induction over the attempts of the dispatcher's loop.
use iwa_brook_quic.Base.{ℕ, zero, suc, ◌+◌, ◌≤◌, ◌<◌, ◌≡◌, leb, Bool-cases, inl, inr, arith}
use iwa_brook_quic.Dispatcher.{
  Attempt, Client, max_attempts, Next, again, leaves, throws, attempt_once, LoopEnd, finished,
  thrown, out_of_fuel, attempt_loop,
}

-- What holds of the next thing that the loop does.
abbrev pub OfNext : (Client → Type 0) → (Client → Type 0) → (Client → Type 0) → Next → Type 0
OfNext P Q R (again c) = P c
OfNext P Q R (leaves c) = Q c
OfNext P Q R (throws c) = R c

-- The loop ends, with what its steps keep.
abbrev pub OfEnd : (Client → Type 0) → (Client → Type 0) → LoopEnd → Type 0
OfEnd Q R (finished c) = Q c
OfEnd Q R (thrown c) = R c
OfEnd Q R (out_of_fuel c) = ⊥

module _ (P : ℕ → Client → Type 0) (Q R : Client → Type 0) (env : ℕ → Attempt)
    (step : (n : ℕ) (c : Client)
      → n ≤ max_attempts
      → P n c
      → OfNext (P (suc n)) Q R (attempt_once n (env n) c))
    (last : (n : ℕ) (c : Client) → n ≡ suc max_attempts → P n c → Q c) where
  go_on :
      (fuel n : ℕ) (next : Next)
      → ((c : Client) → P (suc n) c → OfEnd Q R (attempt_loop fuel (suc n) env c))
      → OfNext (P (suc n)) Q R next
      → OfEnd Q R (elim next [
        | again c' ↦ attempt_loop fuel (suc n) env c'
        | leaves c' ↦ finished c'
        | throws c' ↦ thrown c'
      ])
  go_on fuel n (again c) rest h = rest c h
  go_on fuel n (leaves c) rest h = h
  go_on fuel n (throws c) rest h = h

  pub attempt_loop_rule :
      (fuel n : ℕ) (c : Client)
      → suc max_attempts < fuel + n
      → n ≤ suc max_attempts
      → P n c
      → OfEnd Q R (attempt_loop fuel n env c)
  unfolding attempt_loop
  attempt_loop_rule zero n c enough small h = omega (arith, enough, small)
  attempt_loop_rule (suc fuel) n c enough small h = elim (Bool-cases (leb n max_attempts)) [
    | inl more ↦
        rw (more, attempt_loop)
          (go_on fuel n (attempt_once n (env n) c)
            (λ c' h'. attempt_loop_rule fuel (suc n) c' (omega (arith, enough)) (ground arith) h')
            (step n c (ground arith) h))
    | inr over ↦ rw (over, attempt_loop) (last n c (ground arith) h)
  ]
