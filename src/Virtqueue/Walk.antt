-- ===== src/Virtqueue/Walk.antt =====
-- Lists of descriptors in the table of queue.rs: what the `next` fields lead through.
use jinux.Base.{
  ℕ, zero, suc, ◌+◌, ◌<◌, ◌≡◌, refl, ap, ◌∙◌, Bool, true, false, ◌||◌, List, [], ◌∷◌, ◌++◌, arith,
  ◌==◌,
}
use jinux.Virtqueue.{Table, write_next}

-- The `n` descriptors from `p` on, and the index that they lead to
abbrev pub walk : Table → ℕ → ℕ → List ℕ
walk d p zero = []
walk d p (suc n) = p ∷ walk d (d p).next n

abbrev pub walk_end : Table → ℕ → ℕ → ℕ
walk_end d p zero = p
walk_end d p (suc n) = walk_end d (d p).next n

abbrev pub has : ℕ → List ℕ → Bool
has a [] = false
has a (x ∷ xs) = (a == x) || has a xs

abbrev pub Distinct : List ℕ → Type 0
Distinct [] = Unit
Distinct (x ∷ xs) = (has x xs ≡ false) × Distinct xs

abbrev pub Below : ℕ → List ℕ → Type 0
Below size [] = Unit
Below size (x ∷ xs) = (x < size) × Below size xs

abbrev pub SameNext : Table → Table → Type 0
SameNext d e = (i : ℕ) → (e i).next ≡ (d i).next

module _ (d e : Table) (same : SameNext d e) where
  pub walk-SameNext : (p n : ℕ) → walk e p n ≡ walk d p n
  walk-SameNext p zero = refl
  walk-SameNext p (suc n) = rw (same p, walk-SameNext (d p).next n) refl

  pub walk_end-SameNext : (p n : ℕ) → walk_end e p n ≡ walk_end d p n
  walk_end-SameNext p zero = refl
  walk_end-SameNext p (suc n) = rw (same p) (walk_end-SameNext (d p).next n)

pub walk-add : (d : Table) (p m n : ℕ) → walk d p (m + n) ≡ walk d p m ++ walk d (walk_end d p m) n
walk-add d p zero n = let e : zero + n ≡ n = omega arith in ap (walk d p) e
walk-add d p (suc m) n =
    let e : suc m + n ≡ suc (m + n) = omega arith in
    ap (walk d p) e ∙ ap (λ t. p ∷ t) (walk-add d (d p).next m n)

pub walk_end-add : (d : Table) (p m n : ℕ) → walk_end d p (m + n) ≡ walk_end d (walk_end d p m) n
walk_end-add d p zero n = let e : zero + n ≡ n = omega arith in ap (walk_end d p) e
walk_end-add d p (suc m) n =
    let e : suc m + n ≡ suc (m + n) = omega arith in
    ap (walk_end d p) e ∙ walk_end-add d (d p).next m n

pub has-append : (a : ℕ) (xs ys : List ℕ) → has a (xs ++ ys) ≡ (has a xs || has a ys)
has-append a [] ys = refl
has-append a (x ∷ xs) ys = ground (arith, has-append a xs ys)

pub Distinct-append_left : (xs ys : List ℕ) → Distinct (xs ++ ys) → Distinct xs
Distinct-append_left [] ys h = tt
Distinct-append_left (x ∷ xs) ys h =
    ground (arith, has-append x xs ys, Distinct-append_left xs ys h.1)

pub Distinct-append_right : (xs ys : List ℕ) → Distinct (xs ++ ys) → Distinct ys
Distinct-append_right [] ys h = h
Distinct-append_right (x ∷ xs) ys h = Distinct-append_right xs ys h.1

pub Distinct-append_apart :
    (xs ys : List ℕ) (a : ℕ) → Distinct (xs ++ ys) → has a xs ≡ true → has a ys ≡ false
Distinct-append_apart [] ys a h i = ground arith
Distinct-append_apart (x ∷ xs) ys a h i =
    ground (arith, has-append x xs ys, Distinct-append_apart xs ys a h.1)

pub Below-append_left : (size : ℕ) (xs ys : List ℕ) → Below size (xs ++ ys) → Below size xs
Below-append_left size [] ys h = tt
Below-append_left size (x ∷ xs) ys h = (h.0, Below-append_left size xs ys h.1)

pub Below-append_right : (size : ℕ) (xs ys : List ℕ) → Below size (xs ++ ys) → Below size ys
Below-append_right size [] ys h = h
Below-append_right size (x ∷ xs) ys h = Below-append_right size xs ys h.1

-- All but the last
abbrev pub init : List ℕ → List ℕ
init [] = []
init (x ∷ []) = []
init (x ∷ y ∷ ys) = x ∷ init (y ∷ ys)

pub has-init_left :
    (a : ℕ) (xs ys : List ℕ) → has a (init (xs ++ ys)) ≡ false → has a (init xs) ≡ false
has-init_left a [] ys h = refl
has-init_left a (x ∷ []) ys h = refl
has-init_left a (x ∷ y ∷ xs) ys h = ground (arith, has-init_left a (y ∷ xs) ys)

pub has-init_right :
    (a : ℕ) (xs ys : List ℕ) → has a (init (xs ++ ys)) ≡ false → has a (init ys) ≡ false
has-init_right a [] ys h = h
has-init_right a (x ∷ []) [] h = refl
has-init_right a (x ∷ []) (y ∷ ys) h = ground arith
has-init_right a (x ∷ y ∷ xs) ys h = has-init_right a (y ∷ xs) ys (ground arith)

pub has-init_le : (a : ℕ) (xs : List ℕ) → has a xs ≡ false → has a (init xs) ≡ false
has-init_le a [] h = refl
has-init_le a (x ∷ []) h = refl
has-init_le a (x ∷ y ∷ ys) h = ground (arith, has-init_le a (y ∷ ys))

-- A write of a `next` field spares every list that does not hold its index before its last descriptor.
pub walk-write_next :
    (d : Table) (a v p n : ℕ)
    → has a (init (walk d p n)) ≡ false
    → walk (write_next d a v) p n ≡ walk d p n
walk-write_next d a v p zero h = refl
walk-write_next d a v p (suc zero) h = refl
walk-write_next d a v p (suc (suc n)) h =
    let apart : (a == p) ≡ false = ground arith in
    rw apart (ap (λ t. p ∷ t) (walk-write_next d a v (d p).next (suc n) (ground arith)))

pub walk_end-write_next :
    (d : Table) (a v p n : ℕ)
    → has a (init (walk d p (suc n))) ≡ false
    → walk_end (write_next d a v) p n ≡ walk_end d p n
walk_end-write_next d a v p zero h = refl
walk_end-write_next d a v p (suc n) h =
    let apart : (a == p) ≡ false = ground arith in
    rw apart (walk_end-write_next d a v (d p).next n (ground arith))

pub walk_end-suc : (d : Table) (p n : ℕ) → walk_end d p (suc n) ≡ (d (walk_end d p n)).next
walk_end-suc d p zero = refl
walk_end-suc d p (suc n) = walk_end-suc d (d p).next n

pub has-walk_end : (d : Table) (p n : ℕ) → has (walk_end d p n) (walk d p (suc n)) ≡ true
has-walk_end d p zero = ground arith
has-walk_end d p (suc n) = ground (arith, has-walk_end d (d p).next n)

-- The last of different descriptors is not among the others.
pub has-init-walk_end :
    (d : Table) (p n : ℕ)
    → Distinct (walk d p (suc n))
    → has (walk_end d p n) (init (walk d p (suc n))) ≡ false
has-init-walk_end d p zero h = refl
has-init-walk_end d p (suc n) h =
    let other : (walk_end d (d p).next n == p) ≡ false =
      ground (arith, has-walk_end d (d p).next n, h.0) in
    rw other (has-init-walk_end d (d p).next n h.1)
