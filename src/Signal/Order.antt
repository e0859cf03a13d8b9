-- ===== src/Signal/Order.antt =====
-- The order in which `dequeue` looks at the signals (sig_queues.rs).
use jinux.Base.{
  ℕ, zero, suc, ◌-◌, ◌<◌, ◌≡◌, refl, sym, inl, inr, Bool, true, false, List, [], ◌∷◌, ◌++◌, ◌==◌,
  arith, ◌||◌, ◌&&◌, Bool-cases, subst,
}
use jinux.Signal.{IsSigNum}
use jinux.Signal.Queues.{ordered_std_sigs, rt_sigs}
use jinux.Signal.Search.{AllOf}

-- The order in which pending signals are delivered.
abbrev pub delivery_order : List ℕ
delivery_order = ordered_std_sigs ++ rt_sigs

pub AllOf-every : (P : ℕ → Type 0) → ((n : ℕ) → P n) → (ns : List ℕ) → AllOf P ns
AllOf-every P all [] = tt
AllOf-every P all (n ∷ ns) = (all n, AllOf-every P all ns)

abbrev pub is_member : ℕ → List ℕ → Bool
is_member n [] = false
is_member n (m ∷ ms) = n == m || is_member n ms

pub AllOf-member : (P : ℕ → Type 0) (ns : List ℕ) (n : ℕ) → AllOf P ns → is_member n ns ≡ true → P n
AllOf-member P [] n h e = cc
AllOf-member P (m ∷ ms) n h e = elim (Bool-cases (n == m)) [
  | inl same ↦ subst P (sym (==_iff n m same)) h.0
  | inr other ↦ AllOf-member P ms n h.1 (ground arith)
]
  where
    ==_iff : (n m : ℕ) → (n == m) ≡ true → n ≡ m
    ==_iff n m e = ground arith

-- The test holds of every number under `m`.
abbrev every_under : (ℕ → Bool) → ℕ → Bool
every_under test zero = true
every_under test (suc m) = every_under test m && test m

every_under_elim : (test : ℕ → Bool) (m i : ℕ) → i < m → every_under test m ≡ true → test i ≡ true
every_under_elim test zero i lt e = absurd (omega arith)
every_under_elim test (suc m) i lt e = ground (arith, every_under_elim test m i)

-- Every signal has its place in the order.
pub delivery_order_complete : (n : ℕ) → IsSigNum n → is_member n delivery_order ≡ true
delivery_order_complete n h = ground (
  arith,
  every_under_elim (λ i. is_member (suc i) delivery_order) 64 (n - 1)
      (omega (arith, h.least, h.most)) refl,
)
