-- ===== src/Virtqueue/Both.antt =====
-- The two loops of `add_buf` of queue.rs together, and the flags of the last descriptor.
use Prim.Native.Nat.{bit_or}
use jinux.Base.{
  ℕ, zero, suc, ◌+◌, ◌<◌, ◌≡◌, refl, sym, subst, ap, ◌∙◌, true, false, Option, some, List, [], ◌∷◌,
  ◌++◌, map, arith, ◌==◌, length,
}
use mathlib.Core.List.{map-append}
use jinux.Virtqueue.{
  Table, Descriptor, Buffer, Filling, take_descs, write_at, next_flag, write_flag, remove_next,
}
use jinux.Virtqueue.Walk.{
  walk, walk_end, walk-add, walk_end-add, has, has-append, Distinct, Below, SameNext, walk-SameNext,
  walk_end-SameNext, Distinct-append_left, Distinct-append_right, Distinct-append_apart,
  Below-append_left, Below-append_right,
}
use jinux.Virtqueue.Fill.{Request, request, posted, Mapped, last_of, Filled, take_descs_lem}

last_of-append : (x : ℕ) (xs ys : List ℕ) → last_of x (xs ++ ys) ≡ last_of (last_of x xs) ys
last_of-append x [] ys = refl
last_of-append x (y ∷ xs) ys = last_of-append y xs ys

has-last_of : (x : ℕ) (xs : List ℕ) → has (last_of x xs) (x ∷ xs) ≡ true
has-last_of x [] = ground arith
has-last_of x (y ∷ ys) = ground (arith, has-last_of y ys)

-- Tables that agree on a list hold the same requests there.
map-request :
    (d e : Table) (xs : List ℕ)
    → ((i : ℕ) → has i xs ≡ true → e i ≡ d i)
    → map (request e) xs ≡ map (request d) xs
map-request d e [] h = refl
map-request d e (x ∷ xs) h =
    let here : (x == x) ≡ true = ground arith in
    let head : request e x ≡ request d x =
      ap (λ (t : Descriptor). (t.addr, t.len, t.flags)) (h x (rw here refl)) in
    rw (head, map-request d e xs (λ i t. h i (ground arith))) refl

-- The flags of the last descriptor without NEXT
abbrev pub unlinked : Table → ℕ → Table
unlinked d i = write_at d i (record (d i) { flags = remove_next (d i).flags })

-- The same on requests
abbrev pub unlink_last : List Request → List Request
unlink_last [] = []
unlink_last (r ∷ []) = (r.0, r.1, remove_next r.2) ∷ []
unlink_last (r ∷ s ∷ rs) = r ∷ unlink_last (s ∷ rs)

map-unlinked :
    (d : Table) (x : ℕ) (xs : List ℕ)
    → Distinct (x ∷ xs)
    → map (request (unlinked d (last_of x xs))) (x ∷ xs) ≡ unlink_last (map (request d) (x ∷ xs))
map-unlinked d x [] h = let here : (x == x) ≡ true = ground arith in rw here refl
map-unlinked d x (y ∷ ys) h =
    let other : (last_of y ys == x) ≡ false = ground (arith, has-last_of y ys) in
    let rest = map-unlinked d y ys h.1 in rw other (ap (λ t. request d x ∷ t) rest)

pub SameNext-unlinked : (d : Table) (i : ℕ) → SameNext d (unlinked d i)
SameNext-unlinked d i j = ground arith

module _ (t d : Table) (p : ℕ) where
  pub has-last_of-walk : (n : ℕ) → 0 < n → has (last_of p (walk d p n)) (walk d p n) ≡ true
  has-last_of-walk zero h = elim h [ ]
  has-last_of-walk (suc n) h = has-last_of p (walk d (d p).next n)

  pub map-unlinked-walk :
      (n : ℕ)
      → Distinct (walk d p n)
      → map (request (unlinked t (last_of p (walk d p n)))) (walk d p n)
        ≡ unlink_last (map (request t) (walk d p n))
  map-unlinked-walk zero h = refl
  map-unlinked-walk (suc n) h = map-unlinked t p (walk d (d p).next n) h

module _ (paddr : ℕ → Option ℕ) (pa : ℕ → ℕ) (size : ℕ) (inputs outputs : List Buffer) where
  -- The requests that the loops write
  abbrev pub linked_requests : List Request
  linked_requests =
      map (posted pa next_flag) inputs ++ map (posted pa (bit_or next_flag write_flag)) outputs

  -- What the loops leave behind, from `f` on, at the descriptors `nodes`
  pub record FilledBoth (f h : Filling) (nodes : List ℕ) : Type 0 where
    pub middle : Filling
    pub result_inputs : take_descs paddr size next_flag inputs f ≡ some middle
    pub result_outputs : take_descs paddr size (bit_or next_flag write_flag) outputs middle ≡ some h
    pub free : h.free ≡ walk_end f.table f.free (length inputs + length outputs)
    pub last : h.last ≡ last_of f.last nodes
    pub same : SameNext f.table h.table
    pub outside : (i : ℕ) → has i nodes ≡ false → h.table i ≡ f.table i
    pub content : map (request h.table) nodes ≡ linked_requests

  module _ (f g h : Filling) (xs ys : List ℕ) where
    both_of_each :
        xs ≡ walk f.table f.free (length inputs)
        → ys ≡ walk g.table g.free (length outputs)
        → Distinct (xs ++ ys)
        → Filled paddr pa size next_flag inputs f g
        → Filled paddr pa size (bit_or next_flag write_flag) outputs g h
        → FilledBoth f h (xs ++ ys)
    both_of_each ex ey apart i j = record {
      middle = g;
      result_inputs = i.result;
      result_outputs = j.result;
      free =
          j.free
          ∙ walk_end-SameNext f.table g.table i.same g.free (length outputs)
          ∙ ap (λ p. walk_end f.table p (length outputs)) i.free
          ∙ sym (walk_end-add f.table f.free (length inputs) (length outputs));
      last =
          j.last
          ∙ ap (last_of g.last) (sym ey)
          ∙ ap (λ p. last_of p ys) (i.last ∙ ap (last_of f.last) (sym ex))
          ∙ sym (last_of-append f.last xs ys);
      same = λ k. j.same k ∙ i.same k;
      outside = λ k o.
          j.outside k (rw (sym ey) (ground (arith, has-append k xs ys)))
          ∙ i.outside k (rw (sym ex) (ground (arith, has-append k xs ys)));
      content =
          map-append (request h.table) xs ys
          ∙ ap (λ t. t ++ map (request h.table) ys)
              (map-request g.table h.table xs
                  (λ k t. j.outside k (rw (sym ey) (Distinct-append_apart xs ys k apart t)))
                ∙ ap (map (request g.table)) ex
                ∙ i.content)
          ∙ ap (λ t. map (posted pa next_flag) inputs ++ t)
              (ap (map (request h.table)) ey ∙ j.content);
    }

  pub take_both_lem :
      (f : Filling)
      → Mapped paddr pa inputs
      → Mapped paddr pa outputs
      → Distinct (walk f.table f.free (length inputs + length outputs))
      → Below size (walk f.table f.free (length inputs + length outputs))
      → (h : Filling) × FilledBoth f h (walk f.table f.free (length inputs + length outputs))
  take_both_lem f m n apart within =
      let a = length inputs in
      let b = length outputs in
      let xs = walk f.table f.free a in
      let ys = walk f.table (walk_end f.table f.free a) b in
      let split = walk-add f.table f.free a b in
      let apart' : Distinct (xs ++ ys) = rw (sym split) apart in
      let within' : Below size (xs ++ ys) = rw (sym split) within in
      let (g, i) =
        take_descs_lem paddr pa size next_flag inputs f m (Distinct-append_left xs ys apart')
          (Below-append_left size xs ys within') in
      let ey : ys ≡ walk g.table g.free b =
        rw i.free (sym (walk-SameNext f.table g.table i.same (walk_end f.table f.free a) b)) in
      let (h, j) =
        take_descs_lem paddr pa size (bit_or next_flag write_flag) outputs g n
          (rw (sym ey) (Distinct-append_right xs ys apart'))
          (rw (sym ey) (Below-append_right size xs ys within')) in
      (h, subst (FilledBoth f h) (sym split) (both_of_each f g h xs ys refl ey apart' i j))
