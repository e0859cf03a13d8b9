-- ===== src/Virtqueue/Fresh.antt =====
-- The queue that `new` of queue.rs makes.
use jinux.Base.{
  ℕ, zero, suc, ◌+◌, ◌-◌, ◌≤◌, ◌<◌, ◌≡◌, refl, sym, subst, ap, ◌∙◌, Bool, true, false, not, List,
  [], ◌∷◌, arith, ltb, if◌then◌else◌,
}
use jinux.AlignExt.{is_power_of_two}
use jinux.Virtqueue.{
  VirtQueue, Table, AvailRing, UsedRing, granted, link, new, available_desc, write_next,
}
use jinux.Virtqueue.Walk.{walk, has, init, Distinct, Below}
use jinux.Virtqueue.Add.{free_list}
use jinux.Virtqueue.Idle.{IsIdle}

-- `n` numbers from `i` on
abbrev pub count : ℕ → ℕ → List ℕ
count i zero = []
count i (suc n) = i ∷ count (i + 1) n

has-count : (a i n : ℕ) → a < i → has a (count i n) ≡ false
has-count a i zero h = refl
has-count a i (suc n) h = ground (arith, has-count a (i + 1) n (omega arith))

Distinct-count : (i n : ℕ) → Distinct (count i n)
Distinct-count i zero = tt
Distinct-count i (suc n) = (has-count i (i + 1) n (omega arith), Distinct-count (i + 1) n)

Below-count : (size i n : ℕ) → i + n ≤ size → Below size (count i n)
Below-count size i zero h = tt
Below-count size i (suc n) h = (omega arith, Below-count size (i + 1) n (omega arith))

-- All but the last number are smaller than the last.
has-init_count : (a i n : ℕ) → a + 1 ≡ i + n → has a (init (count i n)) ≡ false
has-init_count a i zero h = refl
has-init_count a i (suc zero) h = refl
has-init_count a i (suc (suc n)) h = ground (arith, has-init_count a (i + 1) (suc n) (omega arith))

link-next_before : (n i j : ℕ) (d : Table) → j < i → (link n i d j).next ≡ (d j).next
link-next_before zero i j d h = refl
link-next_before (suc n) i j d h =
    link-next_before n (i + 1) j (write_next d i (i + 1)) (omega arith) ∙ ground arith

link-next : (n i j : ℕ) (d : Table) → i ≤ j → j < i + n → (link n i d j).next ≡ j + 1
link-next zero i j d h k = absurd (omega arith)
link-next (suc n) i j d h k =
    let written : i ≡ j → (link n (i + 1) (write_next d i (i + 1)) j).next ≡ j + 1 =
      λ e. link-next_before n (i + 1) j (write_next d i (i + 1)) (omega arith) ∙ ground arith in
    let later : i < j → (link n (i + 1) (write_next d i (i + 1)) j).next ≡ j + 1 =
      λ lt. link-next n (i + 1) j (write_next d i (i + 1)) (omega arith) (omega arith) in
    grind arith

walk-link : (d : Table) (s i n : ℕ) → i + n ≤ s + 1 → walk (link s 0 d) i n ≡ count i n
walk-link d s i zero h = refl
walk-link d s i (suc zero) h = refl
walk-link d s i (suc (suc n)) h =
    let e : (link s 0 d i).next ≡ i + 1 = link-next s 0 i d (omega arith) (omega arith) in
    ap (λ (j : ℕ). i ∷ walk (link s 0 d) j (suc n)) e
    ∙ ap (λ t. i ∷ t) (walk-link d s (i + 1) (suc n) (omega arith))

-- `new`, for a size that is a power of two and at most 128 on a legacy transport and 256 on another: it makes
-- an idle queue whose free list is the whole table in ascending order, whatever the frames held.
pub new-IsIdle :
    (idx size : ℕ) (is_legacy : Bool) (d : Table) (avail : AvailRing) (used : UsedRing)
    → is_power_of_two size ≡ true
    → size ≤ (if is_legacy then 128 else 256)
    → (q : VirtQueue) × (new idx size is_legacy d avail used ≡ granted q)
      × IsIdle q
      × (free_list q ≡ count 0 size)
unfolding new available_desc is_power_of_two
new-IsIdle idx size is_legacy d avail used power bound =
    let pos : 0 < size = ground arith in
    let low : ltb (if is_legacy then 128 else 256) size ≡ false = ground arith in
    let small : size ≤ 256 = ground arith in
    let q : VirtQueue = record {
      descs = link (size - 1) 0 d;
      avail = record avail { flags = 0 };
      used = used;
      queue_idx = idx;
      queue_size = size;
      num_used = 0;
      free_head = 0;
      avail_idx = 0;
      last_used_idx = 0;
    } in
    let untouched : size - 0 ≡ size = omega arith in
    let all : walk (link (size - 1) 0 d) 0 size ≡ count 0 size =
      walk-link d (size - 1) 0 size (omega arith) in
    let whole : free_list q ≡ count 0 size = ap (walk q.descs 0) untouched ∙ all in
    (
      q,
      rw (ap not power, low) refl,
      record {
        free = record {
          distinct = subst Distinct (sym whole) (Distinct-count 0 size);
          below = subst (Below size) (sym whole) (Below-count size 0 size (omega arith));
          bound = small;
          used_bound = omega arith;
        };
        unused = refl;
        start = refl;
        end_last =
            subst (λ xs. has (size - 1) (init xs) ≡ false) (sym whole)
              (has-init_count (size - 1) 0 size (omega arith));
      },
      whole,
    )
