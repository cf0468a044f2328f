-- ===== src/Tx/Targets/Rotation.antt =====
-- The targets are taken in turn.
use native.Mathlib.Nat.{mod-eq_of_lt, mod_self}
use viamillipede.Prelude.{
  ℕ, zero, suc, ◌+◌, ◌-◌, ◌%◌, ◌≤◌, ◌<◌, ◌≡◌, refl, sym, ap, subst, ◌∙◌, List, [], ◌∷◌, ◌++◌,
  length, take, drop, length-drop, ltb, true, arith, dec_lt, ne→==,
}
use viamillipede.Prelude.Run.{done, >>=-eq-done, done_injective}
use viamillipede.Tx.Targets.{Target, Targets, target_at, tx_tcp_connect_next, connect_times}

abbrev pub targets_at : List Target → ℕ → Targets
targets_at ports c = record {
  target_port_count = length ports;
  target_port_cursor = c;
  target_ports = ports;
}

target_at-drop :
    (ports : List Target) (c : ℕ)
    → c < length ports
    → (x : Target) × (target_at ports c ≡ done x) × (drop c ports ≡ x ∷ drop (c + 1) ports)
unfolding target_at
target_at-drop [] c lt = absurd (omega arith)
target_at-drop (x ∷ xs) zero lt = (x, refl, refl)
target_at-drop (x ∷ xs) (suc c) lt =
    let (y, got, rest) = target_at-drop xs c (omega arith) in
    let next : suc (c + 1) ≡ suc c + 1 = omega arith in
    (y, got, rest ∙ ap (λ k. y ∷ drop k (x ∷ xs)) next)

ltb-mod : (a b : ℕ) → 0 < b → ltb (a % b) b ≡ true
ltb-mod a b lt = ground arith

step_lem :
    (ports : List Target) (c : ℕ)
    → c < length ports
    → (x : Target) × (tx_tcp_connect_next (targets_at ports c)
        ≡ done (x, targets_at ports ((c + 1) % length ports)))
      × (drop c ports ≡ x ∷ drop (c + 1) ports)
unfolding tx_tcp_connect_next
step_lem ports c lt =
    let (x, got, rest) = target_at-drop ports c lt in
    let below : ltb ((c + 1) % length ports) (length ports) ≡ true =
      ltb-mod (c + 1) (length ports) (omega arith) in
    (x, rw (ne→== (length ports) 0 (λ e. omega arith), below, got) refl, rest)

connect_times-run :
    (n : ℕ) (ports : List Target) (c : ℕ)
    → n + c ≤ length ports
    → c < length ports
    → connect_times n (targets_at ports c)
      ≡ done (take n (drop c ports), targets_at ports ((c + n) % length ports))
unfolding connect_times
connect_times-run zero ports c few lt =
    let none : c + 0 ≡ c = omega arith in rw (none, mod-eq_of_lt lt) refl
connect_times-run (suc n) ports c few lt =
    let (x, next, rest) = step_lem ports c lt in
    rw (next, rest)
      (elim (dec_lt (c + 1) (length ports)) [
        | yes more ↦
            let on : c + 1 + n ≡ c + suc n = omega arith in
            rw (mod-eq_of_lt more, connect_times-run n ports (c + 1) (omega arith) more, on) refl
        | no over ↦
            let none : n ≡ 0 = omega arith in let one : suc 0 ≡ 1 = omega arith in rw none refl
      ])

take_all {ℓ} : {A : Type ℓ} (xs : List A) → take (length xs) xs ≡ xs
take_all [] = refl
take_all (x ∷ xs) = ap (λ l. x ∷ l) (take_all xs)

-- A run of calls behind another one.
connect_times-add :
    (m n k : ℕ) (t t' t'' : Targets) (l l' : List Target)
    → k ≡ m + n
    → connect_times m t ≡ done (l, t')
    → connect_times n t' ≡ done (l', t'')
    → connect_times k t ≡ done (l ++ l', t'')
unfolding connect_times
connect_times-add zero n k t t' t'' l l' e first second =
    let p = done_injective first in
    let same : k ≡ n = omega arith in
    rw (same, ← ap (λ (z : List Target × Targets). z.0) p)
      (subst (λ u. connect_times n u ≡ done (l', t''))
        (sym (ap (λ (z : List Target × Targets). z.1) p)) second)
connect_times-add (suc m) n zero t t' t'' l l' e first second = absurd (omega arith)
connect_times-add (suc m) n (suc k) t t' t'' l l' e first second =
    let (r, made, more) = >>=-eq-done (tx_tcp_connect_next t) _ first in
    let (q, run, all) = >>=-eq-done (connect_times m r.1) _ more in
    let p = done_injective all in
    let behind : connect_times n q.1 ≡ done (l', t'') =
      subst (λ u. connect_times n u ≡ done (l', t''))
        (sym (ap (λ (z : List Target × Targets). z.1) p)) second in
    rw (made, connect_times-add m n k r.1 q.1 t'' q.0 l' (omega arith) run behind)
      (ap (λ (z : List Target × Targets). done (z.0 ++ l', t'')) p)

-- With the cursor at a target, as many calls as there are targets try every target once, in the order
-- of the command line from the cursor on and then from the start, and leave the cursor where it was.
pub connect_times-rotation :
    (ports : List Target) (c : ℕ)
    → c < length ports
    → connect_times (length ports) (targets_at ports c)
      ≡ done (drop c ports ++ take c ports, targets_at ports c)
connect_times-rotation ports c lt =
    let back : c + (length ports - c) ≡ length ports = omega arith in
    let all : length ports - c ≡ length (drop c ports) = omega (arith, length-drop c ports) in
    let on : 0 + c ≡ c = omega arith in
    connect_times-add (length ports - c) c (length ports) (targets_at ports c) (targets_at ports 0)
      (targets_at ports c) (drop c ports) (take c ports) (omega arith)
      (connect_times-run (length ports - c) ports c (omega arith) lt
        ∙ rw (back, all, take_all, mod_self) refl)
      (connect_times-run c ports 0 (omega arith) (omega arith) ∙ rw (on, mod-eq_of_lt lt) refl)
